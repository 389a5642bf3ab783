-- ===== src/FileSystem/ReadData.antt =====
-- student-distrib/file_system.c: `read_data` against the contents of a file, byte by byte.
use linux_like_os_kernel.Prelude.{
  ℕ, zero, suc, ◌+◌, ◌-◌, ◌*◌, ◌/◌, ◌%◌, ◌^◌, ◌<◌, ◌≤◌, ◌&&◌, ltb, leb, if◌then◌else◌, update, ◌≡◌,
  ◌≢◌, ◌⊎◌, inl, inr, arith, refl, Bool-cases, ne→==, lt→leb_false, min, ℤ, pos, add-zero,
}
use linux_like_os_kernel.Machine.{Memory, Fs, u32}
use linux_like_os_kernel.FileSystem.{
  read32, inode_size, data_block, block_addr, read_byte, read_loop, read_data, fs_block_size, int32,
}

-- Byte `p` of the file of an inode.
abbrev pub file_byte : Memory → Fs → ℕ → ℕ → ℕ
file_byte m fs inode p = m (
    fs.first_datablk
    + data_block m fs inode (p / fs_block_size) * fs_block_size
    + p % fs_block_size)

-- A file that can be read: the image lies within the address space, the inode's block lies below the
-- data blocks, each block of the file is one of them, and the buffer lies outside of the image.
pub record IsReadable (m : Memory) (fs : Fs) (inode buf stop : ℕ) : Type 0 where
  pub fits : fs.first_datablk + fs.num_datablocks * fs_block_size ≤ 2 ^ 32
  pub inode_below : fs.inodeblk + inode * fs_block_size + fs_block_size ≤ fs.first_datablk
  pub small : inode_size m fs inode < 1023 * fs_block_size
  pub blocks :
      (k : ℕ)
      → k * fs_block_size < inode_size m fs inode
      → data_block m fs inode k < fs.num_datablocks
  pub apart : (stop ≤ fs.inodeblk) ⊎ (fs.first_datablk + fs.num_datablocks * fs_block_size ≤ buf)

-- A write outside of a word does not change it.
read32-update :
    (m : Memory) (a p v : ℕ) → (p < a) ⊎ (a + 4 ≤ p) → read32 (update m p v) a ≡ read32 m a
read32-update m a p v out = ground arith

module _ (m : Memory) (fs : Fs) (inode buf stop p v : ℕ) (r : IsReadable m fs inode buf stop)
    (lo : buf ≤ p) (hi : p < stop) where
  inode_size-update : inode_size (update m p v) fs inode ≡ inode_size m fs inode
  inode_size-update = read32-update m _ p v (omega (arith, r.apart, r.inode_below))

  data_block-update :
      (k : ℕ) → k < 1023 → data_block (update m p v) fs inode k ≡ data_block m fs inode k
  data_block-update k h = read32-update m _ p v (omega (arith, r.apart, r.inode_below))

  IsReadable-update : IsReadable (update m p v) fs inode buf stop
  IsReadable-update = record {
    fits = r.fits;
    inode_below = r.inode_below;
    small = rw inode_size-update r.small;
    blocks = λ k h.
        let h' : k * fs_block_size < inode_size m fs inode = rw inode_size-update at h in
        rw (data_block-update k (omega (arith, r.small))) (r.blocks k h');
    apart = r.apart;
  }

  file_byte-update :
      (q : ℕ)
      → q < inode_size m fs inode
      → file_byte (update m p v) fs inode q ≡ file_byte m fs inode q
  file_byte-update q h = ground (
    arith,
    data_block-update (q / fs_block_size) (omega (arith, r.small)),
    r.blocks (q / fs_block_size) (omega arith),
    r.apart,
    r.fits,
    r.inode_below,
  )

-- How many of `left` bytes from position `p` on a file has.
abbrev pub remaining : Memory → Fs → ℕ → ℕ → ℕ → ℕ
remaining m fs inode p left = min left (inode_size m fs inode - p)

-- `out` is a read of up to `left` bytes of the file from position `offset + copied` on, when `copied`
-- bytes stand in the buffer already.
record Reads (m : Memory) (fs : Fs) (inode offset buf copied left : ℕ) (out : ℤ × Memory)
    : Type 0 where
  count : out.0 ≡ int32 (copied + remaining m fs inode (offset + copied) left)
  bytes :
      (a : ℕ)
      → out.1 a ≡ (
          if leb (buf + copied) a
            && ltb a (buf + copied + remaining m fs inode (offset + copied) left)
          then file_byte m fs inode (offset + (a - buf))
          else m a)

-- Where the loop stands: block `k` and the byte in it make up the position, and the address is that
-- of the byte.
record IsAt (m : Memory) (fs : Fs) (inode position k byte addr : ℕ) : Type 0 where
  here : k * fs_block_size + byte ≡ position
  in_block : byte ≤ fs_block_size
  address :
      position < inode_size m fs inode → byte < fs_block_size → addr ≡ block_addr m fs inode k byte

-- Behind the last block of a file the loop looks up one block more, if it is to read further.
abbrev pub NextBlock : Memory → Fs → ℕ → ℕ → Type 0
NextBlock m fs inode reach =
    (reach ≤ inode_size m fs inode)
    ⊎ (data_block m fs inode (inode_size m fs inode / fs_block_size) < fs.num_datablocks)

module _ (fs : Fs) (inode offset buf stop : ℕ) where
  -- What a call of the rest of the loop is worth.
  abbrev Continues : (ℕ → ℕ → Memory → ℤ × Memory) → Memory → ℕ → ℕ → ℕ → ℕ → Type 0
  Continues next m copied left k byte =
      (addr : ℕ) (m' : Memory)
      → IsReadable m' fs inode buf stop
      → inode_size m' fs inode ≡ inode_size m fs inode
      → offset + copied ≤ inode_size m fs inode
      → data_block m' fs inode (inode_size m fs inode / fs_block_size)
        ≡ data_block m fs inode (inode_size m fs inode / fs_block_size)
      → IsAt m' fs inode (offset + copied) k byte addr
      → Reads m' fs inode offset buf copied left (next byte addr m')

  -- One byte more has been read.
  Reads-suc :
      (m : Memory) (copied left v : ℕ) (out : ℤ × Memory)
      → IsReadable m fs inode buf stop
      → buf + copied + suc left ≤ stop
      → offset + copied < inode_size m fs inode
      → v ≡ file_byte m fs inode (offset + copied)
      → Reads (update m (buf + copied) v) fs inode offset buf (copied + 1) left out
      → Reads m fs inode offset buf copied (suc left) out
  Reads-suc m copied left v out r below inside value rest = record {
    count = ground (arith, rest.count, size);
    bytes = λ a. ground (
      arith,
      rest.bytes a,
      size,
      λ (h : offset + (a - buf) < inode_size m fs inode).
          file_byte-update m fs inode buf stop (buf + copied) v r (omega arith) (omega arith)
            (offset + (a - buf)) h,
    );
  }
    where
      size : inode_size (update m (buf + copied) v) fs inode ≡ inode_size m fs inode
      size = inode_size-update m fs inode buf stop (buf + copied) v r (omega arith) (omega arith)

  read_byte-Reads :
      (next : ℕ → ℕ → Memory → ℤ × Memory) (m : Memory) (copied left k byte addr : ℕ)
      → IsReadable m fs inode buf stop
      → buf + copied + suc left ≤ stop
      → offset + copied + suc left < 2 ^ 32
      → byte < fs_block_size
      → IsAt m fs inode (offset + copied) k byte addr
      → Continues next m (copied + 1) left k (byte + 1)
      → Reads m fs inode offset buf copied
          (suc left)
          (read_byte fs inode offset buf next copied byte addr m)
  read_byte-Reads next m copied left k byte addr r below fits lt at rest =
      elim (Bool-cases (leb (inode_size m fs inode) (u32 (copied + offset)))) [
        | inl e ↦ rw (e, read_byte) (record { count = ground arith; bytes = λ a. ground arith })
        | inr e ↦
            let inside : offset + copied < inode_size m fs inode = ground arith in
            let lo : buf ≤ buf + copied = omega arith in
            let hi : buf + copied < stop = omega arith in
            let v = m addr in
            let same = data_block-update m fs inode buf stop (buf + copied) v r lo hi in
            rw (e, read_byte)
              (Reads-suc m copied left v _ r below inside (ground (arith, r.blocks k)) (
                rest (u32 (addr + 1)) (update m (buf + copied) v)
                  (IsReadable-update m fs inode buf stop (buf + copied) v r lo hi)
                  (inode_size-update m fs inode buf stop (buf + copied) v r lo hi) (omega arith)
                  (same (inode_size m fs inode / fs_block_size) (omega (arith, r.small)))
                  (record {
                    here = omega (arith, at.here);
                    in_block = omega arith;
                    address = λ p q. ground (
                      arith,
                      same k (omega (arith, at.here, r.small)),
                      r.blocks k,
                      at.here,
                      at.address,
                      r.fits,
                    );
                  })))
      ]

  read_loop-Reads :
      (left copied k byte addr : ℕ) (m : Memory)
      → IsReadable m fs inode buf stop
      → buf + copied + left ≤ stop
      → offset + copied + left < 2 ^ 32
      → (offset + copied ≤ inode_size m fs inode) ⊎ (byte < fs_block_size)
      → NextBlock m fs inode (offset + copied + left)
      → IsAt m fs inode (offset + copied) k byte addr
      → Reads m fs inode offset buf copied left
          (read_loop fs inode offset buf left copied k byte addr m)
  unfolding read_loop
  read_loop-Reads zero copied k byte addr m r below fits cur next at = record {
    count = ground arith;
    bytes = λ a. ground arith;
  }
  read_loop-Reads (suc left) copied k byte addr m r below fits cur next at =
      let go : (k' byte' : ℕ)
          → Continues (read_loop fs inode offset buf left (copied + 1) k') m (copied + 1) left k'
              (byte' + 1) =
        λ k' byte' addr' m' r' size inside block at'.
          read_loop-Reads left (copied + 1) k' (byte' + 1) addr' m' r' (omega arith) (omega arith)
            (inl (rw size inside)) (rw (size, block) (reach-suc next)) at' in
      elim (Bool-cases (leb fs_block_size byte)) [
        | inl e ↦
            let more : data_block m fs inode (k + 1) < fs.num_datablocks =
              ground (arith, at.here, at.in_block, r.blocks (k + 1)) in
            rw (e, read_loop, lt→leb_false _ _ more)
              (read_byte-Reads (read_loop fs inode offset buf left (copied + 1) (k + 1)) m copied
                left (k + 1) 0 (block_addr m fs inode (k + 1) 0) r below fits (omega arith)
                (record {
                  here = ground (arith, at.here, at.in_block);
                  in_block = omega arith;
                  address = λ p q. refl;
                })
                (go (k + 1) 0))
        | inr e ↦
            rw (e, read_loop)
              (read_byte-Reads (read_loop fs inode offset buf left (copied + 1) k) m copied left k
                byte addr r below fits (ground arith) at (go k byte))
      ]
    where
      reach-suc :
          NextBlock m fs inode (offset + copied + suc left)
          → NextBlock m fs inode (offset + (copied + 1) + left)
      reach-suc h = ground arith

-- `read_data` of a file returns the number of bytes that it copied: all that were asked for, or as
-- many as the file has from the offset on. They are the file's bytes from the offset on, and no
-- other byte of memory changes. The file must be readable, the buffer must not be NULL, the
-- lengths must be in range, and a read past the end needs a valid block number behind the last
-- full block.
pub read_data_lem :
    (m : Memory) (fs : Fs) (inode offset buf length : ℕ)
    → buf ≢ 0
    → IsReadable m fs inode buf (buf + length)
    → offset + length < 2 ^ 32
    → length < 2 ^ 31
    → NextBlock m fs inode (offset + length)
    → ((read_data m fs inode offset buf length).0 ≡ pos (remaining m fs inode offset length))
      × ((a : ℕ)
          → (read_data m fs inode offset buf length).1 a ≡ (
              if leb buf a && ltb a (buf + remaining m fs inode offset length)
              then file_byte m fs inode (offset + (a - buf))
              else m a))
unfolding read_data
read_data_lem m fs inode offset buf length nn r fits small next =
    rw (ne→== buf 0 nn) (ground (arith, out.count), λ a. ground (arith, out.bytes a))
  where
    k : ℕ
    k = offset / fs_block_size

    b : ℕ
    b = offset % fs_block_size

    out :
        Reads m fs inode offset buf 0 length
          (read_loop fs inode offset buf length 0 k b (block_addr m fs inode k b) m)
    out =
        read_loop-Reads fs inode offset buf (buf + length) length 0 k b (block_addr m fs inode k b)
          m r (omega arith) (omega arith) (inr (omega arith)) (rw add-zero next)
          (record { here = omega arith; in_block = omega arith; address = λ p q. refl })
