-- ===== src/Spdk.antt =====
-- `read_spdk` and `write_spdk` of src/spdkapi/spdk.c: whole blocks of a namespace, moved by the SPDK
-- library from and to a buffer.
use test_vsfs.Prelude.{ℕ, ◌+◌, ◌-◌, ◌*◌, ◌/◌, ◌%◌, ◌<◌, ◌≡◌, ◌==◌, ltb, leb, ◌&&◌, if◌then◌else◌}
use test_vsfs.Word.{u32, u64}
use test_vsfs.Memory.{Memory, memcpy}
use test_vsfs.Layout.{block_size}

-- The library: `spdk_nvme_ns_cmd_read` and `spdk_nvme_ns_cmd_write`, each run to its completion, for
-- sectors of 512 bytes, which is `_MY_SSD_BLOCK_SIZE_` of src/ufs/Makefile. They return a code, which is 0 where the command was queued, and the bytes
-- that were read or the namespace as it is then.
pub record Nvme : Type 1 where
  pub Ns : Type 0
  pub cmd_read : Ns → (lba lba_count : ℕ) → ℕ × (ℕ → ℕ)
  pub cmd_write : Ns → (payload : ℕ → ℕ) → (lba lba_count : ℕ) → ℕ × Ns

-- `PER_DEV_BLOCKS` is 4096 / 512, without parentheses.
abbrev pub dev_lba : ℕ → ℕ
dev_lba offset_block = u64 (offset_block * block_size) / 512

abbrev pub dev_count : ℕ → ℕ
dev_count num_block = u32 (num_block * block_size) / 512

module _ (nvme : Nvme) where
  open nvme use {Ns, cmd_read, cmd_write}

  -- The code and what the buffer holds then.
  unfoldable pub read_spdk : Ns → (dma_buf : Memory) → (offset_block num_block : ℕ) → ℕ × Memory
  read_spdk ns dma_buf offset_block num_block =
      let (rc, bytes) = cmd_read ns (dev_lba offset_block) (dev_count num_block) in
      if rc == 0 then (0, memcpy dma_buf 0 bytes (dev_count num_block * 512)) else (rc, dma_buf)

  unfoldable pub write_spdk : Ns → (dma_buf : Memory) → (offset_block num_block : ℕ) → ℕ × Ns
  write_spdk ns dma_buf offset_block num_block =
      let (rc, ns') = cmd_write ns dma_buf (dev_lba offset_block) (dev_count num_block) in
      if rc == 0 then (0, ns') else (rc, ns)

-- What NVMe promises of commands for one sector or more that are queued: a sector reads as what was
-- written to it last, and a read of several sectors gives each of them.
pub record IsReliable (nvme : Nvme) : Type 0 where
  pub reads : (ns : nvme.Ns) (lba count : ℕ) → 0 < count → (nvme.cmd_read ns lba count).0 ≡ 0
  pub writes :
      (ns : nvme.Ns) (payload : ℕ → ℕ) (lba count : ℕ)
      → 0 < count
      → (nvme.cmd_write ns payload lba count).0 ≡ 0
  pub written :
      (ns : nvme.Ns) (payload : ℕ → ℕ) (lba count at i : ℕ)
      → 0 < count
      → i < 512
      → (nvme.cmd_read (nvme.cmd_write ns payload lba count).1 at 1).1 i ≡ (
          if leb lba at && ltb at (lba + count)
          then payload ((at - lba) * 512 + i)
          else (nvme.cmd_read ns at 1).1 i)
  pub sectors :
      (ns : nvme.Ns) (lba count i : ℕ)
      → i < count * 512
      → (nvme.cmd_read ns lba count).1 i ≡ (nvme.cmd_read ns (lba + i / 512) 1).1 (i % 512)
