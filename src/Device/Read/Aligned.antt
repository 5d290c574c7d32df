-- ===== src/Device/Read/Aligned.antt =====
-- `__read_dblock` of src/inc/vsfsio_spdk.h as a whole, the reads for which it is right, and what it
-- reads back of `__write_dblock`.
use test_vsfs.Prelude.{
  ℕ, ◌+◌, ◌-◌, ◌*◌, ◌/◌, ◌%◌, ◌^◌, ◌≤◌, ◌<◌, ◌≡◌, refl, arith, ◌∙◌, ltb, leb, inl, inr, ◌⊎◌, false,
  le→leb, lt→leb, lt→ltb, le→ltb, ◌==◌, ne→==, if◌then◌else◌,
}
use test_vsfs.Word.{u32, u64, sub64, to_int}
use test_vsfs.Memory.{Memory, memset}
use test_vsfs.Memory.Laws.{memcpy-inside, memcpy-outside}
use test_vsfs.FileIo.{byte_addr}
use test_vsfs.FileIo.Read.{Readed}
use test_vsfs.Spdk.{Nvme, IsReliable}
use test_vsfs.Device.{File, region}
use test_vsfs.Device.Read.{Fetch, read_rounds, read_dblock}
use test_vsfs.Device.Read.Laws.{IsHere, IsFetched, read_rounds_lem}

-- The bytes of the file from `offset` on that a read of `nbyte` bytes takes.
abbrev pub taken : (size offset nbyte : ℕ) → ℕ
taken size offset nbyte = if leb size (offset + nbyte) then size - offset else nbyte

-- A read whose last block is `last`: the buffer has this block at its start, whatever block was
-- asked for there, and zeros from the end of the file to the end of the read.
pub record IsLast (nvme : Nvme) (ofs : ℕ) (ns : nvme.Ns) (file : File) (left last offset nbyte : ℕ)
    (buf : Memory) (d : Readed) : Type 0 where
  pub result : d.result ≡ to_int nbyte
  pub moved : d.offset ≡ offset + left
  pub held :
      (t : ℕ)
      → t < 4096
      → (t < left) ⊎ (nbyte ≤ t)
      → d.buf t ≡ region nvme ofs ns (file.block last * 4096 + t)
  pub zeros : (t : ℕ) → left ≤ t → t < nbyte → d.buf t ≡ 0
  pub past : (t : ℕ) → 4096 ≤ t → (t < left) ⊎ (nbyte ≤ t) → d.buf t ≡ buf t

module _ (nvme : Nvme) (reliable : IsReliable nvme) (ofs : ℕ) (small : ofs < 2 ^ 32) (ns : nvme.Ns)
    (file : File) (word : (k : ℕ) → k < file.blocks → file.block k < 2 ^ 32)
    (few : file.blocks ≤ 2 ^ 21) (offset nbyte : ℕ) (buf : Memory)
    (fits : file.size ≤ file.blocks * 4096) (before : offset < file.size) (some_bytes : 0 < nbyte)
    (range : nbyte < 2 ^ 63) where
  abbrev left : ℕ
  left = taken file.size offset nbyte

  left_bounds : (0 < left) × (left ≤ nbyte) × (offset + left ≤ file.size)
  left_bounds = (ground arith, ground arith, ground arith)

  begin : Fetch
  begin = record { buf = buf; pos = offset; offset = offset % 4096; left = left; readed = 0 }

  here : IsHere nvme reliable ofs small ns file word few (offset / 4096) begin
  unfolding begin
  here = record {
    inside = omega arith;
    place = omega arith;
    fits = omega (arith, left_bounds, fits);
  }

  fetched : Fetch
  fetched = read_rounds nvme ofs ns file file.blocks (offset / 4096) begin

  whole : Readed
  unfolding fetched
  whole = record {
    offset = fetched.pos;
    buf = memset fetched.buf fetched.readed 0 (nbyte - left);
    result = to_int nbyte;
  }

  read_dblock_at : read_dblock nvme ofs ns file offset nbyte buf ≡ whole
  unfolding read_dblock whole fetched begin
  read_dblock_at =
      let e : u64 (offset + nbyte) ≡ offset + nbyte = omega (arith, few, fits) in
      let f : sub64 file.size offset ≡ file.size - offset = omega (arith, few, fits) in
      let g : u32 (offset / 4096) ≡ offset / 4096 = omega (arith, few, fits) in
      let h : (file.size == offset) ≡ false = ne→== file.size offset (omega arith) in
      elim (side file.size (offset + nbyte)) [
        | inl le ↦
            let p : sub64 nbyte (file.size - offset) ≡ nbyte - (file.size - offset) =
              omega (arith, few, fits) in
            rw (e, f, g, h, le→leb file.size (offset + nbyte) le, p) refl
        | inr gt ↦
            let p : nbyte - nbyte ≡ 0 = omega arith in
            rw (e, f, g, h, lt→leb file.size (offset + nbyte) gt, p) refl
      ]
    where
      side : (a b : ℕ) → (a ≤ b) ⊎ (b < a)
      side a b = omega arith

  abbrev last : ℕ
  last = (offset + left - 1) / 4096

  done : IsFetched nvme reliable ofs small ns file word few last begin fetched
  unfolding fetched begin
  done =
      let e : (offset / 4096 * 4096 + begin.offset + begin.left - 1) / 4096 ≡ last = omega arith in
      rw e at (
        read_rounds_lem nvme reliable ofs small ns file word few file.blocks (offset / 4096) begin
          here left_bounds.0 (omega arith))

  total : fetched.readed ≡ left
  unfolding begin
  total = done.total ∙ omega arith

  memset-outside :
      (t : ℕ)
      → (t < left) ⊎ (nbyte ≤ t)
      → memset fetched.buf fetched.readed 0 (nbyte - left) t ≡ fetched.buf t
  unfolding memset
  memset-outside t l =
      memcpy-outside fetched.buf fetched.readed (λ _. 0) (nbyte - left) t
        (omega (arith, total, left_bounds))

  memset-inside :
      (t : ℕ) → left ≤ t → t < nbyte → memset fetched.buf fetched.readed 0 (nbyte - left) t ≡ 0
  unfolding memset
  memset-inside t l h =
      memcpy-inside fetched.buf fetched.readed (λ _. 0) (nbyte - left) t (omega (arith, total))
        (omega (arith, total))

  -- For a device that keeps what is written to it, a file of at most 2 ^ 21 blocks that hold its
  -- size, block numbers of 32 bits, and a read of some bytes that begins before the end of the
  -- file: `__read_dblock` moves the offset behind what it takes, and of all the blocks it reads
  -- only the last one is left, at the start of the caller's buffer, with zeros behind the end of
  -- the file; past its first 4096 bytes the buffer gets none of the file.
  pub read_dblock-IsLast :
      IsLast nvme ofs ns file left
        ((offset + left - 1) / 4096)
        offset
        nbyte
        buf
        (read_dblock nvme ofs ns file offset nbyte buf)
  unfolding begin whole
  read_dblock-IsLast = rw read_dblock_at (record {
    result = refl;
    moved = done.place;
    held = λ t h l. memset-outside t l ∙ done.held t h;
    zeros = λ t l h. memset-inside t l h;
    past = λ t h l. memset-outside t l ∙ done.past t h;
  })

  -- For a device that keeps what is written to it, a file of at most 2 ^ 21 blocks that hold its
  -- size, block numbers of 32 bits, and a read within one block that begins at the start of this
  -- block and before the end of the file: `__read_dblock` gives the file's bytes from `offset` on,
  -- and zeros from the end of the file on.
  pub read_dblock-aligned :
      offset % 4096 ≡ 0
      → nbyte ≤ 4096
      → (t : ℕ) → t < nbyte
      → (read_dblock nvme ofs ns file offset nbyte buf).buf t
        ≡ (if ltb t left then region nvme ofs ns (byte_addr file.block (offset + t)) else 0)
  read_dblock-aligned start one t h = elim (side t left) [
    | inl l ↦
        let e : last ≡ (offset + t) / 4096 = omega (arith, left_bounds) in
        let f : (offset + t) % 4096 ≡ t = omega arith in
        rw (lt→ltb t left l, f) (rw e at (read_dblock-IsLast.held t (omega arith) (inl l)))
    | inr l ↦ rw (le→ltb t left l) (read_dblock-IsLast.zeros t l h)
  ]
    where
      side : (a b : ℕ) → (a < b) ⊎ (b ≤ a)
      side a b = omega arith
