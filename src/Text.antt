-- ===== src/Text.antt =====
-- `std::to_string` on the integers that the keys and messages print.
mod Decimal
unfoldable pub use Decimal.{to_string, int_to_string}
pub use Decimal.{to_string-injective, to_string-Lacks, int_to_string-injective, int_to_string-Lacks}
