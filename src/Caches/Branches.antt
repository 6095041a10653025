-- ===== src/Caches/Branches.antt =====
-- The branches of a call of a cache, by what the first lookup and the maker answer.
use metal_runtime.Caches.{texts, after_find, store}
use metal_runtime.Common.{◌≡◌, arith, Option, none, some, Text}
use metal_runtime.Errors.{Error, Result, ok, throw}
use metal_runtime.Lru.{Cache, insert}

module _ {V : Type 0} (key : Text) (others : Cache Text V → Cache Text V) where
  pub after_find-hit :
      (made : Result V) (p : Cache Text V × Option V) (v : V)
      → p.1 ≡ some v
      → after_find key made others p ≡ some (p.0, ok v)
  unfolding after_find
  after_find-hit made p v e = ground arith

  pub after_find-throw :
      (p : Cache Text V × Option V) (e : Error)
      → p.1 ≡ none
      → after_find key (throw e) others p ≡ some (p.0, throw e)
  unfolding after_find
  after_find-throw p e h = ground arith

  pub after_find-store :
      (p : Cache Text V × Option V) (v w : V) (c' : Cache Text V)
      → p.1 ≡ none
      → insert texts (others p.0) key v ≡ some (c', w)
      → after_find key (ok v) others p ≡ some (c', ok w)
  unfolding after_find store
  after_find-store p v w c' h stored = ground arith
