-- ===== src/Fat/Chain/Scan.antt =====
-- The search for a free cluster in stretch_chain of src/fs/fat.c.
use mathlib.Core.Path.{subst}
use beaner_os.Fat.Bytes.{Buf}
use beaner_os.Fat.State.{Fat, Geometry, full, DiskOps, IsDevice, Res, ok, err}
use beaner_os.Fat.Cache.View.{Coherent, Keeps, Keeps-refl, Keeps-trans}
use beaner_os.Fat.Table.{ClustFlags, is_free, classify, get_fat, entry_result}
use beaner_os.Fat.Table.Entries.{IsLaidOut, entry}
use beaner_os.Fat.Table.Get.{get_fat-classify}
use beaner_os.Fat.Chain.{next_clust, flag_bits, scan}
use beaner_os.Fat.Chain.Remove.{table_of, entry-Keeps}
use beaner_os.Base.{
  ltb, if◌then◌else◌, ℕ, suc, ◌+◌, ◌-◌, ◌^◌, ◌≤◌, ◌<◌, ◌≡◌, ◌≢◌, ◌⊎◌, true, false, some, arith,
  ==-false_of_ne, ==-refl, zero, ◌%◌, sym, ap, ◌∙◌, eq-cases, inl, inr, Bool-cases, refl,
}

-- `c` is a data cluster.
abbrev pub IsCluster : Geometry → ℕ → Type 0
IsCluster geo c = (2 ≤ c) × (c < geo.clust_cnt)

-- Steps of `next_clust` from `c` to `u`; a whole round from `u` itself.
abbrev pub ahead : (cnt u c : ℕ) → ℕ
ahead cnt u c = if ltb c u then u - c else cnt - c + (u - 2)

pub next_clust-ahead :
    (cnt u c : ℕ)
    → 2 ≤ u
    → u < cnt
    → 2 ≤ c
    → c < cnt
    → cnt < 2 ^ 32
    → (2 ≤ next_clust cnt c)
      × (next_clust cnt c < cnt)
      × ((next_clust cnt c ≡ u) ⊎ (suc (ahead cnt u (next_clust cnt c)) ≡ ahead cnt u c))
unfolding next_clust
next_clust-ahead cnt u c h1 h2 h3 h4 h5 = ground arith

ahead_injective :
    (cnt u x y : ℕ)
    → u < cnt
    → 2 ≤ u
    → (2 ≤ x) × (x < cnt)
    → (2 ≤ y) × (y < cnt)
    → ahead cnt u x ≡ ahead cnt u y
    → x ≡ y
ahead_injective cnt u x y hu hu2 hx hy e = ground arith

ahead_pos : (cnt u x : ℕ) → u < cnt → 2 ≤ u → (2 ≤ x) × (x < cnt) → 0 < ahead cnt u x
ahead_pos cnt u x h h2 hx = ground arith

next_clust-ahead_one :
    (cnt u c : ℕ)
    → 2 ≤ u
    → u < cnt
    → 2 ≤ c
    → c < cnt
    → cnt < 2 ^ 32
    → next_clust cnt c ≡ u
    → ahead cnt u c ≡ 1
unfolding next_clust
next_clust-ahead_one cnt u c h1 h2 h3 h4 h5 e = ground arith

pub classify_free :
    (cnt v : ℕ) (cf : ClustFlags) → classify cnt v ≡ some cf → is_free cf ≡ true → v ≡ 0
unfolding classify
classify_free cnt v cf e f = ground arith

pub classify_taken :
    (cnt v : ℕ) (cf : ClustFlags) → classify cnt v ≡ some cf → is_free cf ≡ false → v ≢ 0
unfolding classify
classify_taken cnt v cf e f = ground arith

-- Every data cluster has an entry that get_fat accepts.
abbrev pub IsValidTable : Geometry → (ℕ → ℕ) → Type 0
IsValidTable geo table =
    (c : ℕ) → IsCluster geo c → (cf : ClustFlags) × (classify geo.clust_cnt (table c) ≡ some cf)

-- What the search gives, started behind `c`: a free cluster, or FAT_ERR_FULL where there is none
-- from there on to `u`.
abbrev pub Scanned : Geometry → (table : ℕ → ℕ) → (u c : ℕ) → Res ℕ → Type 0
Scanned geo table u c r =
    ((x : ℕ) × (r ≡ ok x) × IsCluster geo x × (x ≢ u) × (table x ≡ 0))
    ⊎ ((r ≡ err full)
        × ((x : ℕ)
            → IsCluster geo x
            → x ≢ u
            → ahead geo.clust_cnt u x < ahead geo.clust_cnt u c
            → table x ≢ 0))

module _ {D : Type 0} {ops : DiskOps D} {sector : D → ℕ → Buf} (dev : IsDevice ops sector) where
  run_full :
      (k c fl : ℕ) (f : Fat D)
      → next_clust f.geo.clust_cnt c ≡ f.last_used
      → scan ops (suc k) c fl f ≡ (err full, f)
  unfolding scan
  run_full k c fl f e = simp (e, ==-refl)

  run_found :
      (k c fl v : ℕ) (cf : ClustFlags) (f g : Fat D)
      → is_free cf ≡ true
      → next_clust f.geo.clust_cnt c ≢ f.last_used
      → get_fat ops (next_clust f.geo.clust_cnt c) f ≡ (ok (v, cf), g)
      → scan ops (suc k) c fl f ≡ (ok (next_clust f.geo.clust_cnt c), g)
  unfolding scan
  run_found k c fl v cf f g free ne r =
      rw (==-false_of_ne (next_clust f.geo.clust_cnt c) f.last_used ne, r, free, r)

  run_next :
      (k c fl v : ℕ) (cf : ClustFlags) (f g : Fat D)
      → is_free cf ≡ false
      → next_clust f.geo.clust_cnt c ≢ f.last_used
      → get_fat ops (next_clust f.geo.clust_cnt c) f ≡ (ok (v, cf), g)
      → scan ops (suc k) c fl f ≡ scan ops k (next_clust f.geo.clust_cnt c) (flag_bits cf) g
  unfolding scan
  run_next k c fl v cf f g taken ne r =
      rw (==-false_of_ne (next_clust f.geo.clust_cnt c) f.last_used ne, r, taken, r)

  -- The same with the cluster looked at under a name of its own.
  found_at :
      (k c fl v y : ℕ) (cf : ClustFlags) (f g : Fat D)
      → is_free cf ≡ true
      → next_clust f.geo.clust_cnt c ≡ y
      → y ≢ f.last_used
      → get_fat ops y f ≡ (ok (v, cf), g)
      → scan ops (suc k) c fl f ≡ (ok y, g)
  found_at k c fl v y cf f g free e =
      subst
        (λ (y : ℕ).
          y ≢ f.last_used → get_fat ops y f ≡ (ok (v, cf), g) → scan ops (suc k) c fl f ≡ (ok y, g))
        e (run_found k c fl v cf f g free)

  next_at :
      (k c fl v y : ℕ) (cf : ClustFlags) (f g : Fat D)
      → is_free cf ≡ false
      → next_clust f.geo.clust_cnt c ≡ y
      → y ≢ f.last_used
      → get_fat ops y f ≡ (ok (v, cf), g)
      → scan ops (suc k) c fl f ≡ scan ops k y (flag_bits cf) g
  next_at k c fl v y cf f g taken e =
      subst
        (λ (y : ℕ).
          y ≢ f.last_used
          → get_fat ops y f ≡ (ok (v, cf), g)
          → scan ops (suc k) c fl f ≡ scan ops k y (flag_bits cf) g)
        e (run_next k c fl v cf f g taken)

  module _ (geo : Geometry) (table : ℕ → ℕ) (u : ℕ) (lay : IsLaidOut geo)
      (valid : IsValidTable geo table) (small : geo.clust_cnt < 2 ^ 32)
      (u_in : IsCluster geo u) where
    -- The volumes that the search passes through.
    pub record Passes (f : Fat D) : Type 0 where
      pub coherent : Coherent sector f
      pub geo_is : f.geo ≡ geo
      pub used_is : f.last_used ≡ u
      pub table_is : (x : ℕ) → table_of sector f x ≡ table x

    pub Keeps-Passes : (f g : Fat D) → Keeps sector f g → Passes f → Passes g
    Keeps-Passes f g k p = record {
      coherent = k.coherent;
      geo_is = k.geo ∙ p.geo_is;
      used_is = k.last_used ∙ p.used_is;
      table_is = λ x.
          ap (λ (y : Geometry). entry sector g y.fat_sect0 x % 2 ^ 28) k.geo
          ∙ ap (λ v. v % 2 ^ 28)
              (entry-Keeps sector f.geo.fat_sect0 x f g
                (λ e. lay.first (sym (ap (λ (y : Geometry). y.fat_sect0) p.geo_is) ∙ e)) k)
          ∙ p.table_is x;
    }

    pub clust_cnt_is : (f : Fat D) → Passes f → f.geo.clust_cnt ≡ geo.clust_cnt
    clust_cnt_is f p = ap (λ (y : Geometry). y.clust_cnt) p.geo_is

    result_is :
        (y : ℕ) (f g : Fat D) (cf : ClustFlags)
        → Passes f
        → classify geo.clust_cnt (table y) ≡ some cf
        → ◌≡◌ {A = Res (ℕ × ClustFlags) × Fat D}
            (entry_result (table_of sector f y) (classify f.geo.clust_cnt (table_of sector f y)), g)
            (ok (table y, cf), g)
    result_is y f g cf p e = rw (p.table_is y, clust_cnt_is f p, e)

    pub read_cluster :
        (y : ℕ) (f : Fat D)
        → Passes f
        → IsCluster geo y
        → (g : Fat D) × (cf : ClustFlags) × (get_fat ops y f ≡ (ok (table y, cf), g))
          × (classify geo.clust_cnt (table y) ≡ some cf)
          × Keeps sector f g
    read_cluster y f p is =
        let (cf, e) = valid y is in
        let (g, r, k) =
          get_fat-classify dev y f (subst IsLaidOut (sym p.geo_is) lay)
            (subst (λ (n : ℕ). y < n) (sym (clust_cnt_is f p)) is.1) p.coherent in
        (g, cf, r ∙ result_is y f g cf p e, e, k)

    -- The cluster looked at is the one that the next round starts behind.
    before :
        (c x : ℕ)
        → IsCluster geo c
        → IsCluster geo x
        → next_clust geo.clust_cnt c ≢ u
        → ahead geo.clust_cnt u x < ahead geo.clust_cnt u c
        → (x ≡ next_clust geo.clust_cnt c)
          ⊎ (ahead geo.clust_cnt u x < ahead geo.clust_cnt u (next_clust geo.clust_cnt c))
    before c x is isx ne lt =
        let (lo, hi, step) = next_clust-ahead geo.clust_cnt u c u_in.0 u_in.1 is.0 is.1 small in
        elim (eq-cases (ahead geo.clust_cnt u x)
          (ahead geo.clust_cnt u (next_clust geo.clust_cnt c))) [
            | inl e ↦ inl (
                ahead_injective geo.clust_cnt u x (next_clust geo.clust_cnt c) u_in.1 u_in.0 isx
                  (lo, hi) e)
            | inr other ↦ inr (elim step [ inl e ↦ absurd (ne e) | inr e ↦ omega arith ])
          ]

    nothing_left :
        (c x : ℕ)
        → IsCluster geo c
        → IsCluster geo x
        → next_clust geo.clust_cnt c ≡ u
        → ahead geo.clust_cnt u x < ahead geo.clust_cnt u c
        → ⊥
    nothing_left c x is isx e lt = omega (
      arith,
      ahead_pos geo.clust_cnt u x u_in.1 u_in.0 isx,
      next_clust-ahead_one geo.clust_cnt u c u_in.0 u_in.1 is.0 is.1 small e,
    )

    closer :
        (c : ℕ) {k : ℕ}
        → IsCluster geo c
        → next_clust geo.clust_cnt c ≢ u
        → ahead geo.clust_cnt u c ≤ suc k
        → ahead geo.clust_cnt u (next_clust geo.clust_cnt c) ≤ k
    closer c is ne fuel =
        elim (next_clust-ahead geo.clust_cnt u c u_in.0 u_in.1 is.0 is.1 small).2 [
          | inl e ↦ absurd (ne e)
          | inr e ↦ omega arith
        ]

    -- What holds from the next cluster on holds from here, if that cluster is taken.
    widen :
        (c : ℕ) {r : Res ℕ}
        → IsCluster geo c
        → next_clust geo.clust_cnt c ≢ u
        → table (next_clust geo.clust_cnt c) ≢ 0
        → Scanned geo table u (next_clust geo.clust_cnt c) r
        → Scanned geo table u c r
    widen c is ne taken (inl found) = inl found
    widen c is ne taken (inr (e, none_free)) = inr (
      e,
      λ x isx nx lt. elim (before c x is isx ne lt) [
        | inl q ↦ (λ z. taken (ap table (sym q) ∙ z))
        | inr lt' ↦ none_free x isx nx lt'
      ],
    )

    pub scan-Scanned :
        (k c fl : ℕ) (f : Fat D)
        → IsCluster geo c
        → ahead geo.clust_cnt u c ≤ k
        → Passes f
        → (r : Res ℕ) × (g : Fat D) × (scan ops k c fl f ≡ (r, g))
          × Keeps sector f g
          × Scanned geo table u c r
    scan-Scanned zero c fl f is fuel p =
        absurd (omega (arith, ahead_pos geo.clust_cnt u c u_in.1 u_in.0 is))
    scan-Scanned (suc k) c fl f is fuel p =
        let y = next_clust geo.clust_cnt c in
        let y_is : next_clust f.geo.clust_cnt c ≡ y =
          ap (λ (n : ℕ). next_clust n c) (clust_cnt_is f p) in
        let (lo, hi, step) = next_clust-ahead geo.clust_cnt u c u_in.0 u_in.1 is.0 is.1 small in
        elim (eq-cases y u) [
          | inl e ↦ (
            err full,
            f,
            run_full k c fl f (y_is ∙ e ∙ sym p.used_is),
            Keeps-refl sector f p.coherent,
            inr (refl, λ x isx nx lt. absurd (nothing_left c x is isx e lt)),
          )
          | inr ne ↦
              let (g, cf, r, e, kp) = read_cluster y f p (lo, hi) in
              let ne' : y ≢ f.last_used = λ q. ne (q ∙ p.used_is) in
              elim (Bool-cases (is_free cf)) [
                | inl free ↦ (
                  ok y,
                  g,
                  found_at k c fl (table y) y cf f g free y_is ne' r,
                  kp,
                  inl (y, refl, (lo, hi), ne, classify_free geo.clust_cnt (table y) cf e free),
                )
                | inr taken ↦
                    let (res, h, run, kr, out) =
                      scan-Scanned k y (flag_bits cf) g (lo, hi) (closer c is ne fuel)
                        (Keeps-Passes f g kp p) in
                    (
                      res,
                      h,
                      next_at k c fl (table y) y cf f g taken y_is ne' r ∙ run,
                      Keeps-trans sector f g h kp kr,
                      widen c is ne (classify_taken geo.clust_cnt (table y) cf e taken) out,
                    )
              ]
        ]
