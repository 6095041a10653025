-- ===== src/Examples/Specialize.antt =====
-- A kernel with a required constant `N` and an optional `bias`.
use metal_runtime.Common.{
  ◌≡◌, ◌↔◌, refl, [], ◌∷◌, none, some, codes, text_eq, true, false, if◌then◌else◌,
}
use metal_runtime.Common.Int.{pos}
use metal_runtime.Constant.{int_type, float_type}
use metal_runtime.Errors.{ok, throw, constants_mismatch}
use metal_runtime.Keys.{FunctionConstant, integer}
use metal_runtime.Specialize.{Probe, MtlLibrary, create_specialized}
use metal_runtime.Specialize.Laws.{Specializes, create_specialized_iff}

abbrev blur : Probe
blur = record {
  function = 7;
  declared =
      (codes "N", record { type = int_type; required = true })
      ∷ (codes "bias", record { type = float_type; required = false })
      ∷ [];
}

abbrev pub metal : MtlLibrary
metal = record {
  probe = λ name. if text_eq name (codes "blur") then some blur else none;
  specialize = λ name settings. some 8;
  utf8 = λ s. true;
}

abbrev pub sixteen : FunctionConstant
sixteen = record { name = codes "N"; value = integer (pos 16) }

specialized : create_specialized metal (codes "blur") (sixteen ∷ []) ≡ ok 8
unfolding create_specialized metal_runtime.Constant.coerce
specialized = refl

-- The misspelled constant and the one it leaves out are reported together.
misspelled :
    create_specialized metal
      (codes "blur")
      (record { name = codes "n"; value = integer (pos 16) } ∷ [])
    ≡ throw (constants_mismatch (codes "blur") (codes "N" ∷ []) (codes "n" ∷ []))
unfolding create_specialized metal_runtime.Constant.coerce
misspelled = refl

create_specialized_iff_example :
    (create_specialized metal (codes "blur") (sixteen ∷ []) ≡ ok 8)
    ↔ Specializes metal (codes "blur") (sixteen ∷ []) 8
create_specialized_iff_example = create_specialized_iff metal (codes "blur") (sixteen ∷ []) 8
