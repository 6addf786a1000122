-- ===== src/Fat/Chain/Stretch.antt =====
-- The links that stretch_chain of src/fs/fat.c writes.
use beaner_os.Fat.Bytes.{Buf, put32}
use beaner_os.Fat.State.{Fat, DiskOps, IsDevice, ok, sub32}
use beaner_os.Fat.Cache.View.{view, Coherent}
use beaner_os.Fat.Table.{merge, put_fat}
use beaner_os.Fat.Table.Entries.{IsLaidOut, IsTable, IsOutside, entry}
use beaner_os.Fat.Table.Put.{Merged, put_fat-Merged, IsStored, IsStored-along}
use beaner_os.Fat.Chain.{link_free, eoc}
use beaner_os.Fat.Chain.Remove.{IsTable-along, cnt_along, IsOutside-along, laid_along}
use beaner_os.Fat.Chain.Free.{disk_entry}
use beaner_os.Base.{
  ==-refl, sym, ◌⊎◌, ◌≤◌, ◌/◌, ◌%◌, ◌^◌, ◌==◌, if◌then◌else◌, ==_iff, ==-false_of_ne, eq-cases, ℕ,
  ◌<◌, ◌≡◌, refl, ap, ◌∙◌, ◌≢◌, inl, inr, false, not, ◌&&◌, arith,
}

-- The new entry of cluster `x`, where `prev` (if it is one) is linked to `c` and `c` ends the chain.
abbrev pub linked : (prev c x old : ℕ) → ℕ
linked prev c x old =
    if (x == prev) && not (prev == 0) then merge old c else if x == c then merge old eoc else old

-- `new` is an entry of 32 bits that marks the end of a chain, and has the upper four bits of `old`.
pub record IsEnd (old new : ℕ) : Type 0 where
  pub low : 0x0fff_fff8 ≤ new % 2 ^ 28
  pub upper : new / 2 ^ 28 ≡ old / 2 ^ 28 % 16

IsStored-IsEnd : (old new : ℕ) → IsStored old eoc new → IsEnd old new
IsStored-IsEnd old new s = record { low = omega (arith, s.low); upper = s.upper }

pub linked-IsEnd : (prev c old new : ℕ) → prev ≢ c → new ≡ linked prev c c old → IsEnd old new
linked-IsEnd prev c old new ne e =
    IsStored-IsEnd old new (
      IsStored-along old eoc new (e ∙ rw (==-false_of_ne c prev (λ q. ne (sym q)), ==-refl c) refl))

pub linked-IsStored :
    (prev c old new : ℕ) → prev ≢ 0 → new ≡ linked prev c prev old → IsStored old c new
linked-IsStored prev c old new nz e =
    IsStored-along old c new (e ∙ rw (==-refl prev, ==-false_of_ne prev 0 nz) refl)

pub linked-kept : (prev c x old : ℕ) → x ≢ c → (prev ≡ 0) ⊎ (x ≢ prev) → linked prev c x old ≡ old
linked-kept prev c x old ne apart = ground (arith, ==_iff x c, ==_iff x prev)

module _ {D : Type 0} (sector : D → ℕ → Buf) where
  -- `g` is `f` with `c` taken and linked behind `prev`.
  pub record Linked (prev c : ℕ) (f g : Fat D) : Type 0 where
    pub coherent : Coherent sector g
    pub geo : g.geo ≡ f.geo
    pub last_used : g.last_used ≡ c
    pub free_cnt : g.free_cnt ≡ sub32 f.free_cnt 1
    pub info_dirty : g.info_dirty ≡ f.info_dirty
    pub entries :
        (base x : ℕ)
        → IsTable f.geo base
        → x < f.geo.clust_cnt
        → entry sector g base x ≡ linked prev c x (entry sector f base x)
    pub outside : (t : ℕ) → t ≢ 0 → IsOutside f.geo t → view sector g t ≡ view sector f t

  -- The same, written back to the disk, FsInfo included.
  pub record Stretched (prev c : ℕ) (f g : Fat D) : Type 0 where
    pub coherent : Coherent sector g
    pub geo : g.geo ≡ f.geo
    pub clean : g.buf_dirty ≡ false
    pub info_clean : g.info_dirty ≡ false
    pub last_used : g.last_used ≡ c
    pub free_cnt : g.free_cnt ≡ sub32 f.free_cnt 1
    pub ended :
        (base : ℕ) → IsTable f.geo base → IsEnd (entry sector f base c) (disk_entry sector g base c)
    pub linked_to :
        (base : ℕ)
        → IsTable f.geo base
        → prev ≢ 0
        → IsStored (entry sector f base prev) c (disk_entry sector g base prev)
    pub kept :
        (base x : ℕ)
        → IsTable f.geo base
        → x < f.geo.clust_cnt
        → x ≢ c
        → (prev ≡ 0) ⊎ (x ≢ prev)
        → disk_entry sector g base x ≡ entry sector f base x
    pub outside :
        (t : ℕ)
        → t ≢ 0
        → t ≢ f.geo.info_sect
        → IsOutside f.geo t
        → sector g.disk t ≡ view sector f t
    pub info :
        sector g.disk f.geo.info_sect
        ≡ put32 (put32 (view sector f f.geo.info_sect) 492 g.last_used) 488 g.free_cnt

module _ {D : Type 0} {ops : DiskOps D} {sector : D → ℕ → Buf} (dev : IsDevice ops sector) where
  abbrev counted : ℕ → Fat D → Fat D
  counted c f = record f { last_used = c; free_cnt = sub32 f.free_cnt 1 }

  entry-counted :
      (c base x : ℕ) (f : Fat D) → entry sector (counted c f) base x ≡ entry sector f base x
  unfolding entry
  entry-counted c base x f = refl

  link-run_zero :
      (prev c : ℕ) (f g : Fat D)
      → prev ≡ 0
      → put_fat ops c eoc f ≡ (ok tt, g)
      → link_free ops prev c f ≡ (ok tt, counted c g)
  unfolding link_free
  link-run_zero prev c f g e w = rw (e, w)

  link-run_prev :
      (prev c : ℕ) (f g h : Fat D)
      → prev ≢ 0
      → put_fat ops c eoc f ≡ (ok tt, g)
      → put_fat ops prev c g ≡ (ok tt, h)
      → link_free ops prev c f ≡ (ok tt, counted c h)
  unfolding link_free
  link-run_prev prev c f g h nz w v = rw (==-false_of_ne prev 0 nz, w, v)

  link_zero-Linked :
      (prev c : ℕ) (f g : Fat D)
      → prev ≡ 0
      → Merged dev c eoc f g
      → Linked sector prev c f (counted c g)
  link_zero-Linked prev c f g e p = record {
    coherent = record { size = p.coherent.size; clean = p.coherent.clean };
    geo = p.geo;
    last_used = refl;
    free_cnt = ap (λ n. sub32 n 1) p.free_cnt;
    info_dirty = p.info_dirty;
    entries = λ base x is lt.
        ground (arith, entry-counted c base x g, p.entries base x is lt, ==_iff x c);
    outside = p.outside;
  }

  link_prev-Linked :
      (prev c : ℕ) (f g h : Fat D)
      → prev ≢ 0
      → prev ≢ c
      → prev < f.geo.clust_cnt
      → Merged dev c eoc f g
      → Merged dev prev c g h
      → Linked sector prev c f (counted c h)
  link_prev-Linked prev c f g h nz ne in_range p q = record {
    coherent = record { size = q.coherent.size; clean = q.coherent.clean };
    geo = q.geo ∙ p.geo;
    last_used = refl;
    free_cnt = ap (λ n. sub32 n 1) (q.free_cnt ∙ p.free_cnt);
    info_dirty = q.info_dirty ∙ p.info_dirty;
    entries = λ base x is lt. ground (
      arith,
      entry-counted c base x h,
      q.entries base x (IsTable-along base g f p.geo is) (cnt_along x g f p.geo lt),
      p.entries base x is lt,
      p.entries base prev is in_range,
      ==_iff x c,
      ==_iff x prev,
      ==_iff prev c,
    );
    outside = λ t z o. q.outside t z (IsOutside-along t g f p.geo o) ∙ p.outside t z o;
  }

  pub link_free-Linked :
      (prev c : ℕ) (f : Fat D)
      → IsLaidOut f.geo
      → Coherent sector f
      → c < f.geo.clust_cnt
      → prev < f.geo.clust_cnt
      → prev ≢ c
      → (g : Fat D) × (link_free ops prev c f ≡ (ok tt, g)) × Linked sector prev c f g
  link_free-Linked prev c f lay coh lt lt' ne =
      let (g, w, p) = put_fat-Merged dev c eoc f lay lt coh in
      elim (eq-cases prev 0) [
        | inl e ↦ (counted c g, link-run_zero prev c f g e w, link_zero-Linked prev c f g e p)
        | inr nz ↦
            let (h, v, q) =
              put_fat-Merged dev prev c g (laid_along g f p.geo lay) (cnt_along prev g f p.geo lt')
                p.coherent in
            (
              counted c h,
              link-run_prev prev c f g h nz w v,
              link_prev-Linked prev c f g h nz ne lt' p q,
            )
      ]
