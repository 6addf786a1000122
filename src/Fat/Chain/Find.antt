-- ===== src/Fat/Chain/Find.antt =====
-- How stretch_chain of src/fs/fat.c chooses a cluster: the next one if it is free, else a scan.
use beaner_os.Fat.Bytes.{Buf}
use beaner_os.Fat.State.{Fat, full, DiskOps, IsDevice, Geometry, Res, ok, err}
use beaner_os.Fat.Cache.View.{Keeps, Keeps-trans}
use beaner_os.Fat.Table.{ClustFlags, is_free, get_fat}
use beaner_os.Fat.Table.Entries.{IsLaidOut}
use beaner_os.Fat.Chain.{Junk, next_clust, flag_bits, scan, try_next, find_free}
use beaner_os.Fat.Chain.Scan.{
  IsCluster, IsValidTable, Passes, Keeps-Passes, clust_cnt_is, read_cluster, scan-Scanned, ahead,
  next_clust-ahead, classify_free,
}
use beaner_os.Base.{
  ==-false_of_ne, ℕ, ◌+◌, ◌^◌, ◌≤◌, ◌<◌, ◌≡◌, ◌≢◌, ◌⊎◌, inl, inr, true, false, arith, Bool-cases,
  ap, ◌∙◌,
}

-- A free cluster, or FAT_ERR_FULL where no data cluster but `u` is free.
abbrev pub Found : Geometry → (table : ℕ → ℕ) → (u : ℕ) → Res ℕ → Type 0
Found geo table u r =
    ((x : ℕ) × (r ≡ ok x) × IsCluster geo x × (table x ≡ 0))
    ⊎ ((r ≡ err full) × ((x : ℕ) → IsCluster geo x → x ≢ u → table x ≢ 0))

ahead_self : (cnt u : ℕ) → u < cnt → ahead cnt u u ≤ cnt + 1
ahead_self cnt u h = ground arith

ahead-lt_self :
    (cnt u x : ℕ) → 2 ≤ u → u < cnt → (2 ≤ x) × (x < cnt) → x ≢ u → ahead cnt u x < ahead cnt u u
ahead-lt_self cnt u x h h' hx ne = ground arith

module _ {D : Type 0} {ops : DiskOps D} {sector : D → ℕ → Buf} (dev : IsDevice ops sector)
    (junk : Junk) where
  run_zero :
      (f : Fat D) (r : Res ℕ × Fat D)
      → scan ops (f.geo.clust_cnt + 1) f.last_used junk.flags f ≡ r
      → find_free ops junk 0 f ≡ r
  unfolding find_free try_next
  run_zero f r run = run

  run_free :
      (prev v : ℕ) (cf : ClustFlags) (f g : Fat D)
      → prev ≢ 0
      → is_free cf ≡ true
      → get_fat ops (next_clust f.geo.clust_cnt prev) f ≡ (ok (v, cf), g)
      → find_free ops junk prev f ≡ (ok (next_clust f.geo.clust_cnt prev), g)
  unfolding find_free try_next
  run_free prev v cf f g nz free r = rw (==-false_of_ne prev 0 nz, r, free)

  run_taken :
      (prev v : ℕ) (cf : ClustFlags) (f g : Fat D)
      → prev ≢ 0
      → is_free cf ≡ false
      → get_fat ops (next_clust f.geo.clust_cnt prev) f ≡ (ok (v, cf), g)
      → find_free ops junk prev f ≡ scan ops (g.geo.clust_cnt + 1) g.last_used (flag_bits cf) g
  unfolding find_free try_next
  run_taken prev v cf f g nz taken r = rw (==-false_of_ne prev 0 nz, r, taken)

  module _ (geo : Geometry) (table : ℕ → ℕ) (u : ℕ) (lay : IsLaidOut geo)
      (valid : IsValidTable geo table) (small : geo.clust_cnt < 2 ^ 32)
      (u_in : IsCluster geo u) where
    abbrev Through : Fat D → Type 0
    Through = Passes dev geo table u lay valid small u_in

    -- A whole round.
    round :
        (fl : ℕ) (f : Fat D)
        → Through f
        → (r : Res ℕ) × (g : Fat D) × (scan ops (f.geo.clust_cnt + 1) f.last_used fl f ≡ (r, g))
          × Keeps sector f g
          × Found geo table u r
    round fl f p =
        let (r, g, run, k, out) =
          scan-Scanned dev geo table u lay valid small u_in (geo.clust_cnt + 1) u fl f u_in
            (ahead_self geo.clust_cnt u u_in.1) p in
        (
          r,
          g,
          ap (λ (n : ℕ). scan ops (n + 1) f.last_used fl f)
                (clust_cnt_is dev geo table u lay valid small u_in f p)
              ∙ ap (λ (v : ℕ). scan ops (geo.clust_cnt + 1) v fl f) p.used_is
              ∙ run,
          k,
          elim out [
            | inl (x, e, is, ne, z) ↦ inl (x, e, is, z)
            | inr (e, none_free) ↦ inr (
              e,
              λ x is ne. none_free x is ne (ahead-lt_self geo.clust_cnt u x u_in.0 u_in.1 is ne),
            )
          ],
        )

    pub find_free-Found :
        (prev : ℕ) (f : Fat D)
        → (prev ≡ 0) ⊎ IsCluster geo prev
        → Through f
        → (r : Res ℕ) × (g : Fat D) × (find_free ops junk prev f ≡ (r, g))
          × Keeps sector f g
          × Found geo table u r
    find_free-Found prev f (inl e) p =
        let (r, g, run, k, out) = round junk.flags f p in
        (r, g, rw e (run_zero f (r, g) run), k, out)
    find_free-Found prev f (inr is) p =
        let y = next_clust geo.clust_cnt prev in
        let nz : prev ≢ 0 = omega arith in
        let (lo, hi, _) = next_clust-ahead geo.clust_cnt u prev u_in.0 u_in.1 is.0 is.1 small in
        let (g, cf, read, e, k) =
          read_cluster dev geo table u lay valid small u_in y f p (lo, hi) in
        let read' : get_fat ops (next_clust f.geo.clust_cnt prev) f ≡ (ok (table y, cf), g) =
          ap (λ (n : ℕ). get_fat ops (next_clust n prev) f)
            (clust_cnt_is dev geo table u lay valid small u_in f p)
          ∙ read in
        elim (Bool-cases (is_free cf)) [
          | inl free ↦ (
            ok (next_clust f.geo.clust_cnt prev),
            g,
            run_free prev (table y) cf f g nz free read',
            k,
            inl (
              y,
              ap (λ (n : ℕ). ok (next_clust n prev))
                  (clust_cnt_is dev geo table u lay valid small u_in f p),
              (lo, hi),
              classify_free geo.clust_cnt (table y) cf e free,
            ),
          )
          | inr taken ↦
              let (r, h, run, k', out) =
                round (flag_bits cf) g
                  (Keeps-Passes dev geo table u lay valid small u_in f g k p) in
              (
                r,
                h,
                run_taken prev (table y) cf f g nz taken read' ∙ run,
                Keeps-trans sector f g h k k',
                out,
              )
        ]
