-- ===== src/Fat/Geo.antt =====
-- Clusters and sectors of src/fs/fat.c.
use beaner_os.Fat.State.{Geometry, add32, sub32}
use beaner_os.Base.{ℕ, ◌*◌, ◌/◌, ◌%◌, ◌^◌}

-- `((clust - 2) << fat->clust_shift) + fat->data_sect` of uint32_t.
unfoldable pub clust_to_sect : Geometry → ℕ → ℕ
clust_to_sect geo clust = add32 (sub32 clust 2 * 2 ^ geo.clust_shift % 2 ^ 32) geo.data_sect

-- `((sect - fat->data_sect) >> fat->clust_shift) + 2`
unfoldable pub sect_to_clust : Geometry → ℕ → ℕ
sect_to_clust geo sect = add32 (sub32 sect geo.data_sect / 2 ^ geo.clust_shift) 2
