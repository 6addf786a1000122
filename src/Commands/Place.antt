-- ===== src/Commands/Place.antt =====
-- Where the directory of the shell, `g_cwd` of src/kernel/commands.c, can be.
use beaner_os.Commands.{
  Sys, Ran, done, outside, root_dir, prefix_len, name_of, build_path, up_from, parent_of, say,
  out_of_fuel,
}
use beaner_os.Commands.Run.{on_result, at_path, refused, enter, cd_to, cd, is_stuck}
use beaner_os.Fat.State.{DiskOps, Res, ok, err}
use beaner_os.Fat.Chain.{Junk}
use beaner_os.Fat.Time.{Timestamp}
use beaner_os.Fat.Dir.{same_bytes}
use beaner_os.Base.{
  ℕ, List, [], ◌∷◌, codes, leb, if◌then◌else◌, Bool-cases, length, take, ◌+◌, ◌≤◌, ◌<◌, ◌≡◌, refl,
  ap, ◌∙◌, inl, inr, Bool, true, false, Option, none, some, ◌++◌, arith, ltb, ◌==◌, get_or,
  length-append, ◌-◌, not, ◌&&◌, length-take, take-take, snoc-append, take-append,
}

-- The directory lies on the volume, and fits into its array with the NUL.
pub record IsPlace (cwd : List ℕ) : Type 0 where
  pub below_root : take prefix_len cwd ≡ root_dir
  pub fits : length cwd < 256

-- After cd of `name` in `cwd`: the directory is a place; or the walk to it does not end; or the path
-- was too long for its array.
pub data InPlace {D : Type 0} (cwd name : List ℕ) : Ran D → Type 0 where
  stays : (s : Sys D) → IsPlace s.cwd → InPlace cwd name (done s)
  endless : InPlace cwd name out_of_fuel
  overflows : 256 ≤ length cwd + 1 + length name → InPlace cwd name outside

below_root-length : (cwd : List ℕ) → take prefix_len cwd ≡ root_dir → prefix_len ≤ length cwd
below_root-length cwd e =
    let (a, b) = length-take prefix_len cwd in
    let five : length (take prefix_len cwd) ≡ 5 = ap length e in omega arith

take-IsPlace :
    (i : ℕ) (cwd : List ℕ)
    → prefix_len ≤ i
    → i < 256
    → take prefix_len cwd ≡ root_dir
    → IsPlace (take i cwd)
take-IsPlace i cwd le lt e = record {
  below_root = take-take prefix_len i cwd le ∙ e;
  fits = omega (arith, (length-take i cwd).0);
}

root_dir-IsPlace : IsPlace root_dir
root_dir-IsPlace = record { below_root = refl; fits = omega arith }

shorter-IsPlace : (i : ℕ) (cwd : List ℕ) → prefix_len ≤ i → IsPlace cwd → IsPlace (take i cwd)
shorter-IsPlace i cwd le p = record {
  below_root = take-take prefix_len i cwd le ∙ p.below_root;
  fits = let (a, b) = length-take i cwd in omega (arith, p.fits);
}

climbed-IsPlace :
    (i : ℕ) (short : Bool) (cwd : List ℕ)
    → IsPlace cwd
    → IsPlace (if short then cwd else if leb i prefix_len then root_dir else take i cwd)
climbed-IsPlace i true cwd p = p
climbed-IsPlace i false cwd p = elim (Bool-cases (leb i prefix_len)) [
  | inl e ↦ rw e root_dir-IsPlace
  | inr e ↦ rw e (shorter-IsPlace i cwd (ground arith) p)
]

parent_of-IsPlace : (cwd : List ℕ) → IsPlace cwd → IsPlace (parent_of cwd)
unfolding parent_of
parent_of-IsPlace cwd p =
    let last = length cwd - 1 in
    climbed-IsPlace (up_from (if get_or cwd last 0 == b'/' then last - 1 else last) cwd)
      (leb (length cwd) prefix_len) cwd p

-- A path that is built fits, and begins with the directory.
data IsBuilt (cwd name : List ℕ) : Option (List ℕ) → Type 0 where
  built : (rest : List ℕ) → IsBuilt cwd name (some (cwd ++ rest))
  too_long : 256 ≤ length cwd + 1 + length name → IsBuilt cwd name none

fitted-IsBuilt :
    (cwd name dest rest : List ℕ)
    → dest ≡ cwd ++ rest
    → length rest ≤ 1 + length name
    → IsBuilt cwd name (if ltb (length dest) 256 then some dest else none)
fitted-IsBuilt cwd name dest rest e le = elim (Bool-cases (ltb (length dest) 256)) [
  | inl t ↦ rw t (rw e (built rest))
  | inr t ↦ rw t (
      let sum : length dest ≡ length cwd + length rest = ap length e ∙ length-append cwd rest in
      let wide : 256 ≤ length dest = ground arith in too_long (omega arith))
]

slashed-IsBuilt :
    (slash : Bool) (cwd name : List ℕ)
    → let dest = (if slash then cwd ++ (b'/' ∷ []) else cwd) ++ name in
      IsBuilt cwd name (if ltb (length dest) 256 then some dest else none)
slashed-IsBuilt true cwd name =
    fitted-IsBuilt cwd name ((cwd ++ (b'/' ∷ [])) ++ name) (b'/' ∷ name) (snoc-append cwd b'/' name)
      (omega arith)
slashed-IsBuilt false cwd name = fitted-IsBuilt cwd name (cwd ++ name) name refl (omega arith)

build_path-IsBuilt : (cwd name : List ℕ) → IsBuilt cwd name (build_path cwd name)
unfolding build_path
build_path-IsBuilt cwd name =
    slashed-IsBuilt (ltb 0 (length cwd) && not (get_or cwd (length cwd - 1) 0 == b'/')) cwd name

module _ {D : Type 0} (ops : DiskOps D) (junk : Junk) (now : Timestamp) where
  -- The directory is entered, or stays where it is.
  result-InPlace :
      (cwd name format text str : List ℕ) (r : Res (Unit {0})) (t : Sys D)
      → t.cwd ≡ cwd
      → IsPlace cwd
      → take prefix_len str ≡ root_dir
      → InPlace cwd name (
          on_result
            (r, t)
            (refused ops junk now format text)
            (λ _ u. done (record u { cwd = take 255 str })))
  unfolding say
  result-InPlace cwd name format text str (err e) t same p below = elim (Bool-cases (is_stuck e)) [
    | inl loops ↦ rw loops endless
    | inr fails ↦ rw fails (stays _ (rw same p))
  ]
  result-InPlace cwd name format text str (ok _) t same p below =
      stays _ (take-IsPlace 255 str (omega arith) (omega arith) below)

  enter-InPlace :
      (cwd name text str : List ℕ) (s : Sys D)
      → s.cwd ≡ cwd
      → IsPlace cwd
      → take prefix_len str ≡ root_dir
      → InPlace cwd name (enter ops junk now text str s)
  unfolding enter
  enter-InPlace cwd name text str s same p below =
      result-InPlace cwd name (codes "cd: cannot access '%.*s': %s\n") text str _ _ same p below

  path-InPlace :
      (name : List ℕ) (s : Sys D) (path : Option (List ℕ))
      → IsPlace s.cwd
      → IsBuilt s.cwd name path
      → InPlace s.cwd name (at_path ops junk now path (λ str. enter ops junk now name str s))
  path-InPlace name s _ p (built rest) =
      enter-InPlace s.cwd name name (s.cwd ++ rest) s refl p
        (take-append prefix_len s.cwd rest (below_root-length s.cwd p.below_root) ∙ p.below_root)
  path-InPlace name s _ p (too_long big) = overflows big

  cd_to-InPlace :
      (name : List ℕ) (s : Sys D) → IsPlace s.cwd → InPlace s.cwd name (cd_to ops junk now name s)
  unfolding cd_to
  cd_to-InPlace name s p = elim (Bool-cases (same_bytes name (codes "."))) [
    | inl here ↦ rw here (stays s p)
    | inr other ↦ rw other (elim (Bool-cases (same_bytes name (codes ".."))) [
      | inl up ↦ rw up (stays _ (parent_of-IsPlace s.cwd p))
      | inr down ↦ rw down (elim (Bool-cases (get_or name 0 0 == b'/')) [
        | inl absolute ↦ rw absolute (
            enter-InPlace s.cwd name name (root_dir ++ name) s refl p
              (take-append prefix_len root_dir name (omega arith)))
        | inr relative ↦
            rw relative
              (path-InPlace name s (build_path s.cwd name) p (build_path-IsBuilt s.cwd name))
      ])
    ])
  ]

  -- Let `g_cwd` begin with `/root` and fit into its array. After `cmd_cd` of any argument,
  -- whatever the disk holds, it still does; or the walk to the directory runs out of fuel; or the
  -- name was appended to `g_cwd` by `build_path`, and the two with a slash between them have 256
  -- characters or more, so that the path is written behind the end of its array.
  pub cd-InPlace :
      (dirname : List ℕ) (s : Sys D)
      → IsPlace s.cwd
      → InPlace s.cwd (name_of dirname) (cd ops junk now dirname s)
  unfolding cd cd_to same_bytes
  cd-InPlace dirname s p = elim (Bool-cases (length (name_of dirname) == 0)) [
    | inl e ↦
        rw e
          (enter-InPlace s.cwd (name_of dirname) (codes "/") (root_dir ++ codes "/") s refl p refl)
    | inr e ↦ rw e (cd_to-InPlace (name_of dirname) s p)
  ]
