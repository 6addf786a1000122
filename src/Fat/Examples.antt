-- ===== src/Fat/Examples.antt =====
-- The theorems on src/fs/fat.c at a small volume in memory: 8 clusters, FsInfo in sector 1, the
-- tables in sectors 2 and 3. Clusters 2 and 3 are a chain, 4 to 7 are free.
use mathlib.Core.Path.{subst}
use beaner_os.Base.{
  some, ℕ, ◌%◌, ◌^◌, ◌≡◌, ◌≢◌, ◌⊎◌, refl, sym, true, false, arith, [], ◌∷◌, replicate,
  length-replicate, length, if◌then◌else◌, ◌==◌, ==_iff, inl, inr, eq-cases, ==-false_of_ne,
  ==-refl, ◌+◌, ◌-◌,
}
use beaner_os.Fat.File.{File, no_sect, file_write}
use beaner_os.Fat.File.Lost.{IsEmpty, file_write-lost}
use beaner_os.Fat.Time.{
  Timestamp, IsTime, encode_timestamp, decode_timestamp, decode_timestamp-encode_timestamp,
}
use beaner_os.Fat.Bytes.{Buf, get32}
use beaner_os.Fat.State.{Fat, DiskOps, IsDevice, Geometry, ok, Res}
use beaner_os.Fat.Cache.{update_buf, sync_fs}
use beaner_os.Fat.Cache.View.{Coherent, Keeps, Loaded, update_buf-Loaded}
use beaner_os.Fat.Cache.Sync.{Flushed, sync_fs-Flushed}
use beaner_os.Fat.Table.{ClustFlags, used, last, free, classify, get_fat, put_fat}
use beaner_os.Fat.Table.Entries.{entry}
use beaner_os.Fat.Table.Put.{PutFat, put_fat-PutFat}
use beaner_os.Fat.Table.Get.{Answer, get_fat-entry}
use beaner_os.Fat.Chain.{remove_chain, Junk}
use beaner_os.Fat.Chain.Links.{Chain, end, link}
use beaner_os.Fat.Chain.Remove.{table_of}
use beaner_os.Fat.Chain.Free.{IsMounted, ChainFreed, remove_chain-frees}
use beaner_os.Fat.Chain.Scan.{IsCluster, IsValidTable}
use beaner_os.Fat.Chain.Grow.{Outcome, stretch_chain-Outcome}

-- A device in memory.
abbrev pub Ram : Type 0
Ram = ℕ → Buf

abbrev pub sector : Ram → ℕ → Buf
sector d s = if length (d s) == 512 then d s else replicate 512 0

abbrev pub ram : DiskOps Ram
ram = record {
  read = λ d s b. (true, sector d s, d);
  write = λ d s b. (true, λ t. if s == t then b else d t);
}

sector-size : (d : Ram) (s : ℕ) → length (sector d s) ≡ 512
sector-size d s = elim (eq-cases (length (d s)) 512) [
  | inl e ↦ rw ((==_iff (length (d s)) 512).1 e) e
  | inr ne ↦ rw (==-false_of_ne (length (d s)) 512 ne) (length-replicate {A = ℕ} 512 0)
]

write_self : (d : Ram) (s : ℕ) (b : Buf) → length b ≡ 512 → sector (ram.write d s b).1 s ≡ b
write_self d s b e = rw (==-refl s, (==_iff (length b) 512).1 e) refl

write_ne : (d : Ram) (s : ℕ) (b : Buf) (t : ℕ) → s ≢ t → sector (ram.write d s b).1 t ≡ sector d t
write_ne d s b t ne = rw (==-false_of_ne s t ne) refl

pub ram-IsDevice : IsDevice ram sector
ram-IsDevice = record {
  size = sector-size;
  read_ok = λ d s b. refl;
  read_buf = λ d s b. refl;
  read_same = λ d s b t. refl;
  write_ok = λ d s b. refl;
  write_self = write_self;
  write_ne = write_ne;
}

-- Entries 0xffffff8, 0xfffffff, 3, 0xfffffff, and zeros.
abbrev pub table_buf : Buf
table_buf =
    0xf8
    ∷ 0xff
    ∷ 0xff
    ∷ 0x0f
    ∷ 0xff
    ∷ 0xff
    ∷ 0xff
    ∷ 0x0f
    ∷ 3
    ∷ 0
    ∷ 0
    ∷ 0
    ∷ 0xff
    ∷ 0xff
    ∷ 0xff
    ∷ 0x0f
    ∷ replicate 496 0

abbrev image : Ram
image s = if (s == 2) then table_buf else if s == 3 then table_buf else replicate 512 0

abbrev geo : Geometry
geo = record {
  clust_shift = 0;
  clust_msk = 0;
  clust_cnt = 8;
  info_sect = 1;
  fat_sect0 = 2;
  fat_sect1 = 3;
  data_sect = 2;
  root_clust = 2;
}

-- Freshly mounted.
abbrev pub volume : Fat Ram
volume = record {
  disk = image;
  geo = geo;
  last_used = 3;
  free_cnt = 4;
  sect = 0;
  buf = replicate 512 0;
  buf_dirty = false;
  info_dirty = false;
}

pub volume-Coherent : Coherent sector volume
volume-Coherent = record { size = length-replicate {A = ℕ} 512 0; clean = λ _ nz. absurd (nz refl) }

geo-IsMounted : IsMounted geo
geo-IsMounted = record {
  laid = record {
    first = omega arith;
    fits0 = omega arith;
    fits1 = omega arith;
    apart = inr (inl (omega arith));
  };
  info = omega arith;
  info_out = omega arith;
}

table_test :
    (table_of sector volume 2 ≡ 3)
    × (table_of sector volume 3 ≡ 0x0fff_ffff)
    × (table_of sector volume 4 ≡ 0)
    × (table_of sector volume 5 ≡ 0)
    × (table_of sector volume 6 ≡ 0)
    × (table_of sector volume 7 ≡ 0)
unfolding entry get32
table_test = (refl, refl, refl, refl, refl, refl)

volume-Chain : Chain (table_of sector volume) 8 2 (2 ∷ 3 ∷ [])
unfolding classify entry get32
volume-Chain = link (omega arith) table_test.0 refl refl (end (omega arith) refl)

data_cluster : (c : ℕ) → IsCluster geo c → (c ≡ 2) ⊎ (c ≡ 3) ⊎ (c ≡ 4) ⊎ (c ≡ 5) ⊎ (c ≡ 6) ⊎ (c ≡ 7)
data_cluster c is = omega arith

abbrev IsEntry : ℕ → Type 0
IsEntry c = (cf : ClustFlags) × (classify 8 (table_of sector volume c) ≡ some cf)

volume-IsValidTable : IsValidTable geo (table_of sector volume)
unfolding classify entry get32
volume-IsValidTable c is = elim (data_cluster c is) [
  | inl e ↦ subst IsEntry (sym e) (used, refl)
  | inr (inl e) ↦ subst IsEntry (sym e) (last, refl)
  | inr (inr (inl e)) ↦ subst IsEntry (sym e) (free, refl)
  | inr (inr (inr (inl e))) ↦ subst IsEntry (sym e) (free, refl)
  | inr (inr (inr (inr (inl e)))) ↦ subst IsEntry (sym e) (free, refl)
  | inr (inr (inr (inr (inr e)))) ↦ subst IsEntry (sym e) (free, refl)
]

update_buf-Loaded_example :
    (g : Fat Ram) × (update_buf ram 3 volume ≡ (ok tt, g)) × Loaded ram-IsDevice 3 volume g
update_buf-Loaded_example = update_buf-Loaded ram-IsDevice 3 volume (omega arith) volume-Coherent

-- A dirty buffer and dirty counts.
abbrev dirty : Fat Ram
dirty = record volume { sect = 2; buf = replicate 512 1; buf_dirty = true; info_dirty = true }

sync_fs-Flushed_example :
    (g : Fat Ram) × (sync_fs ram dirty ≡ (ok tt, g)) × Flushed ram-IsDevice dirty g
sync_fs-Flushed_example =
    sync_fs-Flushed ram-IsDevice dirty (omega arith)
      (record { size = length-replicate {A = ℕ} 512 1; clean = λ e nz. cc })

get_fat-entry_example :
    (r : Res (ℕ × ClustFlags)) × (g : Fat Ram) × (get_fat ram 2 volume ≡ (r, g))
    × Answer 8 (entry sector volume 2 2 % 2 ^ 28) r
    × Keeps sector volume g
get_fat-entry_example =
    get_fat-entry ram-IsDevice 2 volume geo-IsMounted.laid (omega arith) volume-Coherent

put_fat-PutFat_example :
    (g : Fat Ram) × (put_fat ram 3 4 volume ≡ (ok tt, g)) × PutFat ram-IsDevice 3 4 volume g
put_fat-PutFat_example =
    put_fat-PutFat ram-IsDevice 3 4 volume geo-IsMounted.laid (omega arith) volume-Coherent

remove_chain-frees_example :
    (g : Fat Ram) × (remove_chain ram 2 volume ≡ (ok tt, g))
    × ChainFreed sector (2 ∷ 3 ∷ []) volume g
remove_chain-frees_example =
    remove_chain-frees ram-IsDevice 2 (2 ∷ 3 ∷ []) volume geo-IsMounted volume-Coherent volume-Chain

abbrev junk : Junk
junk = record { flags = 0; clust = 0 }

stretch_chain-Outcome_example : (g : Fat Ram) × Outcome ram-IsDevice junk 3 volume g
stretch_chain-Outcome_example =
    stretch_chain-Outcome ram-IsDevice junk 3 volume geo-IsMounted volume-Coherent
      volume-IsValidTable (omega arith) (omega arith)
      (inr (omega arith, λ e. omega (arith, e, table_test.1)))

-- A file that is open for writing, with nothing in it.
abbrev new_file : File
new_file = record {
  opened = true;
  dir_sect = 4;
  dir_idx = 0;
  sclust = 3;
  clust = 3;
  sect = no_sect;
  size = 0;
  offset = 0;
  buf = replicate 512 0;
  can_write = true;
  can_read = false;
  accessed = false;
  modified = false;
  dirty = false;
}

file_write-lost_example :
    (y : File) × (file_write ram junk (104 ∷ 105 ∷ []) new_file volume ≡ (ok 2, y, volume))
    × IsEmpty y
file_write-lost_example =
    file_write-lost ram junk (104 ∷ 105 ∷ []) new_file volume
      (record { opened = refl; size = refl; offset = refl }) refl

-- 2025-03-14 15:09:27.
abbrev pi_day : Timestamp
pi_day = record { hour = 15; min = 9; sec = 27; day = 14; month = 3; year = 2025 }

pi_day-IsTime : IsTime pi_day
pi_day-IsTime = record {
  hour_in = omega arith;
  min_in = omega arith;
  sec_in = omega arith;
  day_in = omega arith;
  month_in = omega arith;
  year_from = omega arith;
}

decode_timestamp-encode_timestamp_example :
    decode_timestamp (encode_timestamp pi_day).0 (encode_timestamp pi_day).1
    ≡ record pi_day { sec = 27 - 27 % 2; year = (2025 - 1980) % 64 + 1980 }
decode_timestamp-encode_timestamp_example = decode_timestamp-encode_timestamp pi_day pi_day-IsTime
