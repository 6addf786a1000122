-- ===== src/Fat/Reading.antt =====
-- The theorems on files and directories of src/fs/fat.c at a small volume in memory: the tables in sectors 2 and 3,
-- clusters of one sector from sector 4 on, and a file of 600 bytes in clusters 2 and 3.
use beaner_os.Fat.Bytes.{Buf, get32}
use beaner_os.Fat.Table.{classify}
use beaner_os.Fat.Table.Entries.{IsLaidOut, entry}
use beaner_os.Fat.Chain.{Junk}
use beaner_os.Fat.Chain.Links.{Chain, end, link}
use beaner_os.Fat.File.{File, no_sect, end as seek_end, file_read}
use beaner_os.Fat.File.Land.{landed}
use beaner_os.Fat.File.Landed.{IsLanded}
use beaner_os.Fat.File.Position.{IsSized, IsAtRest, table_in}
use beaner_os.Fat.File.Slice.{bytes_from}
use beaner_os.Fat.File.Read.{file_read-bytes}
use beaner_os.Fat.Chain.Remove.{table_of}
use beaner_os.Fat.Dir.{Dir, dir_next}
use beaner_os.Fat.Dir.Walk.{Next, standing}
use beaner_os.Fat.Dir.Step.{dir_next-Next}
use beaner_os.Fat.Examples.{Ram, ram, sector, ram-IsDevice, table_buf}
use beaner_os.Base.{
  ◌==◌, if◌then◌else◌, replicate, length-replicate, ℕ, ◌≡◌, refl, inl, inr, true, false, ◌||◌, List,
  [], ◌∷◌, ◌++◌, arith,
}
use beaner_os.Fat.State.{Geometry, Fat, ok}

abbrev image : Ram
image s =
    if (s == 2) || (s == 3) then table_buf else if s == 4 then replicate 512 7 else replicate 512 8

abbrev content : ℕ → Buf
content = sector image

abbrev geo : Geometry
geo = record {
  clust_shift = 0;
  clust_msk = 0;
  clust_cnt = 8;
  info_sect = 1;
  fat_sect0 = 2;
  fat_sect1 = 3;
  data_sect = 4;
  root_clust = 2;
}

abbrev volume : Fat Ram
volume = record {
  disk = image;
  geo = geo;
  last_used = 3;
  free_cnt = 4;
  sect = 0;
  buf = replicate 512 0;
  buf_dirty = false;
  info_dirty = false;
}

-- As fat_file_open leaves it, before it seeks.
abbrev fresh : File
fresh = record {
  opened = true;
  dir_sect = 4;
  dir_idx = 0;
  sclust = 2;
  clust = 2;
  sect = no_sect;
  size = 600;
  offset = 0;
  buf = replicate 512 0;
  can_write = false;
  can_read = true;
  accessed = false;
  modified = false;
  dirty = false;
}

abbrev chain : List ℕ
chain = 2 ∷ 3 ∷ []

abbrev junk : Junk
junk = record { flags = 0; clust = 0 }

file-Chain : Chain (table_in geo content) 8 2 chain
unfolding classify get32
file-Chain = link (omega arith) refl refl refl (end (omega arith) refl)

volume-IsAtRest : IsAtRest sector geo content volume
volume-IsAtRest = record {
  coherent = record { size = length-replicate {A = ℕ} 512 0; clean = λ _ nz. absurd (nz refl) };
  clean = refl;
  geo_is = refl;
  disk = λ t nz. refl;
}

geo-IsLaidOut : IsLaidOut geo
geo-IsLaidOut = record {
  first = omega arith;
  fits0 = omega arith;
  fits1 = omega arith;
  apart = inr (inl (omega arith));
}

geo-IsSized : IsSized geo
geo-IsSized = record {
  mask = refl;
  shift = omega arith;
  base = omega arith;
  room = λ c is. omega arith;
}

abbrev here : File
here = landed geo content chain 505 fresh

here-IsLanded : IsLanded geo content chain here
here-IsLanded = record {
  is_open = record {
    opened = refl;
    clean = refl;
    starts = omega arith;
    sized = omega arith;
    chain = file-Chain;
    two = omega arith;
    inside = omega arith;
    clust = refl;
    buf = inr refl;
  };
  sect = refl;
  loaded = refl;
}

-- Seven bytes of the first cluster and thirteen of the second.
bytes_test : bytes_from geo content chain 505 20 ≡ replicate 7 7 ++ replicate 13 8
bytes_test = refl

file_read-bytes_example :
    (g : Fat Ram) × (file_read ram junk 20 here volume ≡ (
      (bytes_from geo content chain 505 20, ok tt),
      landed geo content chain 525 (record here { accessed = true }),
      g,
    ))
    × IsAtRest sector geo content g
file_read-bytes_example =
    file_read-bytes ram-IsDevice junk geo content geo-IsLaidOut geo-IsSized 20 chain here volume
      here-IsLanded refl (omega arith) (omega arith) (omega arith) volume-IsAtRest

volume-Chain : Chain (table_of sector volume) 8 2 chain
unfolding classify entry get32
volume-Chain = link (omega arith) refl refl refl (end (omega arith) refl)

abbrev walk : Dir
walk = record {
  opened = true;
  sclust = 2;
  clust = 2;
  sect = 4;
  idx = 0;
  g_buf = [];
  g_len = 0;
  g_crc = 0;
}

-- From the last entry of cluster 2.
dir_next-Next_example :
    Next sector chain 480 walk volume (dir_next ram (standing geo chain 480 walk) volume)
dir_next-Next_example =
    dir_next-Next ram-IsDevice volume geo-IsLaidOut geo-IsSized refl volume-IsAtRest.coherent chain
      480 walk volume-Chain (omega arith) refl (omega arith)
