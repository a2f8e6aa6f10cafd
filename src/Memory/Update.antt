-- ===== src/Memory/Update.antt =====
-- Laws of writes to a map from addresses.
use itc_framework.Base.{◌≡◌, Option, arith}
use itc_framework.Memory.{Ptr, update}
use mathlib.Core.Path.{fun_ext}

module _ {A : Type 0} (f : Ptr → Option A) (p : Ptr) where
  pub update-update : (a b : Option A) → update (update f p a) p b ≡ update f p b
  update-update a b = fun_ext λ q. ground arith

  -- Writing what is there changes nothing.
  pub update_self : (a : Option A) → f p ≡ a → update f p a ≡ f
  update_self a h = fun_ext λ q. ground arith
