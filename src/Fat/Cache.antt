-- ===== src/Fat/Cache.antt =====
-- The one-sector write-back cache of src/fs/fat.c: sync_buf, update_buf and sync_fs.
pub mod View
pub mod Sync
use beaner_os.Base.{ℕ, true, false, if◌then◌else◌, ◌==◌}
use beaner_os.Fat.Bytes.{put32}
use beaner_os.Fat.State.{Fat, DiskOps, M, ok, err, io, pure, ◌>>=◌, ◌>>◌, get, modify}

module _ {D : Type 0} (ops : DiskOps D) where
  -- `fat->ops.write(fat->buf, fat->sect)`, its result turned into an error code.
  write_buf : M D (Unit {0})
  write_buf f =
      let (done, d) = ops.write f.disk f.sect f.buf in
      (if done then ok tt else err io, record f { disk = d })

  -- `fat->ops.read(fat->buf, sect)`. A read that fails may have changed the buffer.
  read_buf : ℕ → M D (Unit {0})
  read_buf s f =
      let (done, b, d) = ops.read f.disk s f.buf in
      (if done then ok tt else err io, record f { disk = d; buf = b })

  abbrev set_clean : Fat D → Fat D
  set_clean f = record f { buf_dirty = false }

  unfoldable pub sync_buf : M D (Unit {0})
  unfolding write_buf
  sync_buf f = (if f.buf_dirty then (do write_buf; modify set_clean) else pure tt) f

  unfoldable pub update_buf : ℕ → M D (Unit {0})
  unfolding read_buf
  update_buf s f =
      (if f.sect == s
          then pure tt
          else do sync_buf; read_buf s; modify (λ g. record g { sect = s }))
        f

  -- `info->next_free = …; info->free_cnt = …` at their offsets 492 and 488 in `FsInfo`.
  abbrev pub put_info : Fat D → Fat D
  put_info f = record f {
    buf_dirty = true;
    buf = put32 (put32 f.buf 492 f.last_used) 488 f.free_cnt;
  }

  sync_info : M D (Unit {0})
  sync_info = do
    f ← get
    update_buf f.geo.info_sect
    modify put_info
    sync_buf
    modify (λ g. record g { info_dirty = false })

  unfoldable pub sync_fs : M D (Unit {0})
  unfolding sync_info
  sync_fs = do sync_buf; f ← get; if f.info_dirty then sync_info else pure tt
