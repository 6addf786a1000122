-- ===== src/Fat/Chain/Remove.antt =====
-- remove_chain of src/fs/fat.c frees the clusters of a chain, all of them and no other.
use mathlib.Core.Path.{subst}
use beaner_os.Fat.Bytes.{Buf}
use beaner_os.Fat.Cache.View.{view, Coherent, Keeps}
use beaner_os.Fat.Table.{ClustFlags, used, last, classify, merge, get_fat, put_fat, entry_result}
use beaner_os.Fat.Table.Entries.{IsLaidOut, IsTable, IsOutside, entry}
use beaner_os.Fat.Table.Get.{get_fat-classify}
use beaner_os.Fat.Table.Put.{Merged, put_fat-Merged}
use beaner_os.Fat.Chain.{remove_loop, count_free}
use beaner_os.Fat.Chain.Links.{has, Chain, end, link, frame}
use beaner_os.Fat.State.{Fat, DiskOps, IsDevice, add32, Geometry, ok}
use beaner_os.Base.{
  if◌then◌else◌, length, ℕ, ◌+◌, ◌/◌, ◌%◌, ◌^◌, ◌<◌, ◌≡◌, ap, ◌∙◌, ◌≢◌, false, List, [], ◌∷◌, arith,
  ==_iff, suc, refl, sym, Option, some, zero, ◌≤◌, inl,
}

module _ {D : Type 0} (sector : D → ℕ → Buf) where
  -- The low 28 bits of the first table.
  abbrev pub table_of : Fat D → ℕ → ℕ
  table_of f c = entry sector f f.geo.fat_sect0 c % 2 ^ 28

  -- `g` is `f` with the clusters `cs` freed and counted.
  pub record Removed (cs : List ℕ) (f g : Fat D) : Type 0 where
    pub coherent : Coherent sector g
    pub geo : g.geo ≡ f.geo
    pub last_used : g.last_used ≡ f.last_used
    pub info_dirty : g.info_dirty ≡ f.info_dirty
    pub free_cnt : g.free_cnt ≡ (f.free_cnt + length cs) % 2 ^ 32
    pub entries :
        (base c : ℕ)
        → IsTable f.geo base
        → c < f.geo.clust_cnt
        → entry sector g base c
          ≡ (if has c cs then merge (entry sector f base c) 0 else entry sector f base c)
    pub outside : (t : ℕ) → t ≢ 0 → IsOutside f.geo t → view sector g t ≡ view sector f t

  pub entry-Keeps :
      (base c : ℕ) (f g : Fat D)
      → base ≢ 0
      → Keeps sector f g
      → entry sector g base c ≡ entry sector f base c
  unfolding entry
  entry-Keeps base c f g nz k = rw (k.same (base + c / 128) (omega arith))

-- Facts about one geometry serve an equal one.
abbrev Below : ℕ → Geometry → Type 0
Below c geo = c < geo.clust_cnt

module _ {D : Type 0} where
  pub IsTable-along :
      (base : ℕ) (g f : Fat D) → g.geo ≡ f.geo → IsTable f.geo base → IsTable g.geo base
  IsTable-along base g f e = subst (λ geo. IsTable geo base) (sym e)

  pub IsOutside-along :
      (t : ℕ) (g f : Fat D) → g.geo ≡ f.geo → IsOutside f.geo t → IsOutside g.geo t
  IsOutside-along t g f e = subst (λ geo. IsOutside geo t) (sym e)

  pub cnt_along : (c : ℕ) (g f : Fat D) → g.geo ≡ f.geo → c < f.geo.clust_cnt → c < g.geo.clust_cnt
  cnt_along c g f e = subst (Below c) (sym e)

  pub laid_along : (g f : Fat D) → g.geo ≡ f.geo → IsLaidOut f.geo → IsLaidOut g.geo
  laid_along g f e = subst IsLaidOut (sym e)

module _ {D : Type 0} {ops : DiskOps D} {sector : D → ℕ → Buf} (dev : IsDevice ops sector) where
  entry-count_free :
      (base c : ℕ) (f : Fat D) → entry sector (count_free ops f) base c ≡ entry sector f base c
  unfolding entry
  entry-count_free base c f = refl

  remove_one :
      (c : ℕ) (f g h : Fat D)
      → Keeps sector f g
      → Merged dev c 0 g h
      → Removed sector (c ∷ []) f (count_free ops h)
  remove_one c f g h k p = record {
    coherent = record { size = p.coherent.size; clean = p.coherent.clean };
    geo = p.geo ∙ k.geo;
    last_used = p.last_used ∙ k.last_used;
    info_dirty = p.info_dirty ∙ k.info_dirty;
    free_cnt = ap (λ n. add32 n 1) (p.free_cnt ∙ k.free_cnt);
    entries = λ base c' is lt. ground (
      arith,
      entry-count_free base c' h,
      p.entries base c' (IsTable-along base g f k.geo is) (cnt_along c' g f k.geo lt),
      entry-Keeps sector base c f g is.0 k,
      entry-Keeps sector base c' f g is.0 k,
    );
    outside = λ t nz out. p.outside t nz (IsOutside-along t g f k.geo out) ∙ k.same t nz;
  }

  remove_then :
      (c : ℕ) (cs : List ℕ) (f g h : Fat D)
      → has c cs ≡ false
      → Removed sector (c ∷ []) f g
      → Removed sector cs g h
      → Removed sector (c ∷ cs) f h
  remove_then c cs f g h out r s = record {
    coherent = s.coherent;
    geo = s.geo ∙ r.geo;
    last_used = s.last_used ∙ r.last_used;
    info_dirty = s.info_dirty ∙ r.info_dirty;
    free_cnt = omega (arith, s.free_cnt, r.free_cnt);
    entries = λ base c' is lt. ground (
      arith,
      s.entries base c' (IsTable-along base g f r.geo is) (cnt_along c' g f r.geo lt),
      r.entries base c' is lt,
      out,
      ==_iff c' c,
    );
    outside = λ t nz o. s.outside t nz (IsOutside-along t g f r.geo o) ∙ r.outside t nz o;
  }

  run_last :
      (k c v : ℕ) (f g h : Fat D)
      → get_fat ops c f ≡ (ok (v, last), g)
      → put_fat ops c 0 g ≡ (ok tt, h)
      → remove_loop ops (suc k) c f ≡ (ok tt, count_free ops h)
  unfolding remove_loop
  run_last k c v f g h r w = rw (r, w)

  run_used :
      (k c n : ℕ) (f g h : Fat D)
      → get_fat ops c f ≡ (ok (n, used), g)
      → put_fat ops c 0 g ≡ (ok tt, h)
      → remove_loop ops (suc k) c f ≡ remove_loop ops k n (count_free ops h)
  unfolding remove_loop
  run_used k c n f g h r w = rw (r, w)

  -- One round, up to the test for the end of the chain.
  remove_step :
      (c : ℕ) (fl : ClustFlags) (f : Fat D)
      → IsLaidOut f.geo
      → c < f.geo.clust_cnt
      → Coherent sector f
      → classify f.geo.clust_cnt (table_of sector f c) ≡ some fl
      → (g h : Fat D) × (get_fat ops c f ≡ (ok (table_of sector f c, fl), g))
        × (put_fat ops c 0 g ≡ (ok tt, h))
        × Removed sector (c ∷ []) f (count_free ops h)
  remove_step c fl f lay lt coh e =
      let (g, r, k) = get_fat-classify dev c f lay lt coh in
      let (h, w, p) =
        put_fat-Merged dev c 0 g (laid_along g f k.geo lay) (cnt_along c g f k.geo lt) k.coherent in
      (
        g,
        h,
        r ∙ ap (λ (o : Option ClustFlags). (entry_result (table_of sector f c) o, g)) e,
        w,
        remove_one c f g h k p,
      )

  frame_along :
      (n : ℕ) (cs : List ℕ) (f g : Fat D)
      → g.geo ≡ f.geo
      → Chain (table_of sector g) f.geo.clust_cnt n cs
      → Chain (table_of sector g) g.geo.clust_cnt n cs
  frame_along n cs f g e =
      subst (λ (geo : Geometry). Chain (table_of sector g) geo.clust_cnt n cs) (sym e)

  -- After the first round the rest of the chain still stands.
  rest_stands :
      (c n : ℕ) (cs : List ℕ) (f g : Fat D)
      → IsLaidOut f.geo
      → has c cs ≡ false
      → Removed sector (c ∷ []) f g
      → Chain (table_of sector f) f.geo.clust_cnt n cs
      → Chain (table_of sector g) g.geo.clust_cnt n cs
  rest_stands c n cs f g lay out r s = frame_along n cs f g r.geo (
      frame (table_of sector f) (table_of sector g) s (λ x lt i.
        ap (λ v. v % 2 ^ 28)
          (ap (λ (geo : Geometry). entry sector g geo.fat_sect0 x) r.geo
            ∙ ground
                (arith, r.entries f.geo.fat_sect0 x (lay.first, inl refl) lt, out, ==_iff x c))))

  -- A chain is freed by as many rounds as it has clusters.
  pub remove_loop-Removed :
      (k c : ℕ) (cs : List ℕ) (f : Fat D)
      → IsLaidOut f.geo
      → Coherent sector f
      → Chain (table_of sector f) f.geo.clust_cnt c cs
      → length cs ≤ k
      → (g : Fat D) × (remove_loop ops k c f ≡ (ok tt, g)) × Removed sector cs f g
  remove_loop-Removed zero c cs f lay coh (end lt e) fuel = absurd (omega arith)
  remove_loop-Removed zero c cs f lay coh (link lt e u out s) fuel = absurd (omega arith)
  remove_loop-Removed (suc k) c cs f lay coh (end lt e) fuel =
      let (g, h, r, w, one) = remove_step c last f lay lt coh e in
      (count_free ops h, run_last k c (table_of sector f c) f g h r w, one)
  remove_loop-Removed (suc k) c cs f lay coh (link {n} {cs = ds} lt e u out s) fuel =
      let cl : classify f.geo.clust_cnt (table_of sector f c) ≡ some used = rw e u in
      let (g, h, r, w, one) = remove_step c used f lay lt coh cl in
      let h' = count_free ops h in
      let (z, run, rest) =
        remove_loop-Removed k n ds h' (laid_along h' f one.geo lay) one.coherent
          (rest_stands c n ds f h' lay out one s) (omega arith) in
      (
        z,
        run_used k c n f g h (r ∙ ap (λ v. (ok (v, used), g)) e) w ∙ run,
        remove_then c ds f h' z out one rest,
      )
