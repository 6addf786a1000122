-- ===== src/Fat/Over.antt =====
-- Functions of src/fs/fat.c on an object of their own, a `File` or a `Dir`, and its volume.
use beaner_os.Fat.State.{Fat, Res, Err, ok, err, M}

-- The object is changed also where an error is returned.
abbrev pub T : Type 0 → Type 0 → Type 0 → Type 0
T S D A = S → Fat D → Res A × S × Fat D

module _ {S D : Type 0} where
  abbrev pub pure : {A : Type 0} → A → T S D A
  pure a x f = (ok a, x, f)

  abbrev pub throw : {A : Type 0} → Err → T S D A
  throw e x f = (err e, x, f)

  abbrev pub and_then : {A B : Type 0} → Res A × S × Fat D → (A → T S D B) → Res B × S × Fat D
  and_then (ok a, x, f) k = k a x f
  and_then (err e, x, f) k = (err e, x, f)

  infixl 5 ◌>>=◌ ◌>>◌
  abbrev pub ◌>>=◌ : {A B : Type 0} → T S D A → (A → T S D B) → T S D B
  m >>= k = λ x f. and_then (m x f) k

  abbrev pub ◌>>◌ : {B : Type 0} → T S D (Unit {0}) → T S D B → T S D B
  m >> k = m >>= λ _. k

  abbrev pub self : T S D S
  self x f = (ok x, x, f)

  abbrev pub volume : T S D (Fat D)
  volume x f = (ok f, x, f)

  abbrev pub change : (S → S) → T S D (Unit {0})
  change g x f = (ok tt, g x, f)

  abbrev pub change_volume : (Fat D → Fat D) → T S D (Unit {0})
  change_volume g x f = (ok tt, x, g f)

  -- A call of a function on the volume.
  abbrev pub lift : {A : Type 0} → M D A → T S D A
  lift m x f = let (r, g) = m f in (r, x, g)
