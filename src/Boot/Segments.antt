-- ===== src/Boot/Segments.antt =====
-- student-distrib/kernel.c and x86_desc.h: the descriptors of the local descriptor table and of the task
-- state segment, which `entry` builds before it enables interrupts, and how the processor reads them.
use linux_like_os_kernel.Prelude.{
  ℕ, ◌+◌, ◌*◌, ◌/◌, ◌%◌, ◌^◌, ◌<◌, ◌==◌, if◌then◌else◌, bit_and, bit_and_field, ◌≡◌, refl, arith,
  ◌∙◌,
}
use linux_like_os_kernel.Process.{kernel_ds}

abbrev kernel_tss : ℕ
kernel_tss = 0x0030

abbrev kernel_ldt : ℕ
kernel_ldt = 0x0038

abbrev tss_bytes : ℕ
tss_bytes = 104

-- `seg_desc_t`
pub record SegDesc : Type 0 where
  pub seg_lim_15_00 : ℕ
  pub base_15_00 : ℕ
  pub base_23_16 : ℕ
  pub segment_type : ℕ
  pub sys : ℕ
  pub dpl : ℕ
  pub present : ℕ
  pub seg_lim_19_16 : ℕ
  pub avail : ℕ
  pub reserved : ℕ
  pub opsize : ℕ
  pub granularity : ℕ
  pub base_31_24 : ℕ

-- `val[0]` and `val[1]`: the fields from the lowest bit on.
abbrev pub val0 : SegDesc → ℕ
val0 d = d.seg_lim_15_00 + d.base_15_00 * 2 ^ 16

abbrev pub val1 : SegDesc → ℕ
val1 d =
    d.base_23_16
    + d.segment_type * 2 ^ 8
    + d.sys * 2 ^ 12
    + d.dpl * 2 ^ 13
    + d.present * 2 ^ 15
    + d.seg_lim_19_16 * 2 ^ 16
    + d.avail * 2 ^ 20
    + d.reserved * 2 ^ 21
    + d.opsize * 2 ^ 22
    + d.granularity * 2 ^ 23
    + d.base_31_24 * 2 ^ 24

-- `SET_LDT_PARAMS` and `SET_TSS_PARAMS`, whose bodies are the same.
unfoldable pub set_params : ℕ → ℕ → SegDesc → SegDesc
set_params addr lim str = record str {
  base_31_24 = bit_and addr 0xFF000000 / 2 ^ 24;
  base_23_16 = bit_and addr 0x00FF0000 / 2 ^ 16;
  base_15_00 = bit_and addr 0x0000FFFF;
  seg_lim_19_16 = bit_and lim 0x000F0000 / 2 ^ 16;
  seg_lim_15_00 = bit_and lim 0x0000FFFF;
}

-- What `entry` leaves in the two descriptors, in the three fields of `tss` that it sets, and in the
-- registers that `lldt` and `ltr` load.
pub record Segments : Type 0 where
  pub ldt_desc_ptr : SegDesc
  pub tss_desc_ptr : SegDesc
  pub ldt_segment_selector : ℕ
  pub ss0 : ℕ
  pub esp0 : ℕ
  pub ldtr : ℕ
  pub tr : ℕ

-- "Construct an LDT entry in the GDT", from a local variable that is not initialised.
unfoldable pub the_ldt_desc : ℕ → ℕ → SegDesc → SegDesc
the_ldt_desc ldt ldt_size local = set_params ldt ldt_size (record local {
  granularity = 0;
  opsize = 1;
  reserved = 0;
  avail = 0;
  present = 1;
  dpl = 0;
  sys = 0;
  segment_type = 2;
})

-- "Construct a TSS entry in the GDT". A field of 4 bits takes the lowest 4 bits of what is stored.
unfoldable pub the_tss_desc : ℕ → ℕ → SegDesc → SegDesc
the_tss_desc tss tss_size local = set_params tss tss_size (record local {
  granularity = 0;
  opsize = 0;
  reserved = 0;
  avail = 0;
  seg_lim_19_16 = bit_and tss_bytes 0x000F0000 % 2 ^ 4;
  present = 1;
  dpl = 0;
  sys = 0;
  segment_type = 9;
  seg_lim_15_00 = bit_and tss_bytes 0x0000FFFF;
})

-- The addresses and the sizes are the linker's and those of x86_desc.S.
unfoldable pub init_segments : (ldt ldt_size tss tss_size : ℕ) → SegDesc → SegDesc → Segments
init_segments ldt ldt_size tss tss_size local local' = record {
  ldt_desc_ptr = the_ldt_desc ldt ldt_size local;
  tss_desc_ptr = the_tss_desc tss tss_size local';
  ldt_segment_selector = kernel_ldt;
  ss0 = kernel_ds;
  esp0 = 0x800000;
  ldtr = kernel_ldt;
  tr = kernel_tss;
}

-- The processor's view of a descriptor, by the bits of its two words.
pub record Segment : Type 0 where
  pub base : ℕ
  pub limit : ℕ
  pub segment_type : ℕ
  pub system : ℕ
  pub privilege : ℕ
  pub present : ℕ

-- The last byte of a segment: a limit with the granularity bit counts pages of 4096 bytes.
unfoldable pub scaled : ℕ → ℕ → ℕ
scaled granularity l = if granularity == 1 then l * 0x1000 + 0xFFF else l

unfoldable pub decode : ℕ → ℕ → Segment
decode v0 v1 = record {
  base = v0 / 2 ^ 16 + v1 % 2 ^ 8 * 2 ^ 16 + v1 / 2 ^ 24 * 2 ^ 24;
  limit = scaled (v1 / 2 ^ 23 % 2) (v0 % 2 ^ 16 + v1 / 2 ^ 16 % 2 ^ 4 * 2 ^ 16);
  segment_type = v1 / 2 ^ 8 % 2 ^ 4;
  system = v1 / 2 ^ 12 % 2;
  privilege = v1 / 2 ^ 13 % 4;
  present = v1 / 2 ^ 15 % 2;
}

mask_16 : (a : ℕ) → bit_and a 0x0000FFFF ≡ a % 2 ^ 16
mask_16 a =
    bit_and_field 0 16 a (a / 2 ^ 16) (a % 2 ^ 16) 0 0xFFFF (omega arith) (omega arith)
      (omega arith) refl
    ∙ omega arith

mask_23_16 : (a : ℕ) → bit_and a 0x00FF0000 / 2 ^ 16 ≡ a / 2 ^ 16 % 2 ^ 8
mask_23_16 a = omega (
  arith,
  bit_and_field 16 8 a (a / 2 ^ 24) (a / 2 ^ 16 % 2 ^ 8) (a % 2 ^ 16) 0xFF (omega arith)
      (omega arith) (omega arith) refl,
)

mask_31_24 : (a : ℕ) → a < 2 ^ 32 → bit_and a 0xFF000000 / 2 ^ 24 ≡ a / 2 ^ 24
mask_31_24 a h = omega (
  arith,
  bit_and_field 24 8 a 0 (a / 2 ^ 24) (a % 2 ^ 24) 0xFF (omega arith) (omega arith) (omega arith)
      refl,
)

mask_19_16 : (a : ℕ) → a < 2 ^ 20 → bit_and a 0x000F0000 / 2 ^ 16 ≡ a / 2 ^ 16
mask_19_16 a h = omega (
  arith,
  bit_and_field 16 4 a 0 (a / 2 ^ 16) (a % 2 ^ 16) 0xF (omega arith) (omega arith) (omega arith)
      refl,
)

-- The processor finds a segment of a type for the system at `base`, whose last byte is at `limit`, and that
-- is present and closed to user programs.
pub record IsSystemSegment (base limit segment_type : ℕ) (d : SegDesc) : Type 0 where
  pub at : (decode (val0 d) (val1 d)).base ≡ base
  pub upto : (decode (val0 d) (val1 d)).limit ≡ limit
  pub typed : (decode (val0 d) (val1 d)).segment_type ≡ segment_type
  pub system : (decode (val0 d) (val1 d)).system ≡ 0
  pub closed : (decode (val0 d) (val1 d)).privilege ≡ 0
  pub present : (decode (val0 d) (val1 d)).present ≡ 1

set_params-IsSystemSegment :
    (addr lim type opsize : ℕ) (d : SegDesc)
    → addr < 2 ^ 32
    → lim < 2 ^ 20
    → type < 16
    → opsize < 2
    → (d.segment_type ≡ type)
      × (d.sys ≡ 0)
      × (d.dpl ≡ 0)
      × (d.present ≡ 1)
      × (d.avail ≡ 0)
      × (d.reserved ≡ 0)
      × (d.opsize ≡ opsize)
      × (d.granularity ≡ 0)
    → IsSystemSegment addr lim type (set_params addr lim d)
unfolding set_params decode scaled
set_params-IsSystemSegment addr lim type opsize d ha hl ht ho (t, s, p, q, a, r, o, g) =
    let m1 = mask_16 addr in
    let m2 = mask_23_16 addr in
    let m3 = mask_31_24 addr ha in
    let m4 = mask_16 lim in
    let m5 = mask_19_16 lim hl in
    let fine : val1 (set_params addr lim d) / 2 ^ 23 % 2 ≡ 0 =
      omega (arith, m2, m3, m5, t, s, p, q, a, r, o, g) in
    record {
      at = omega (arith, m1, m2, m3, m4, m5, t, s, p, q, a, r, o, g);
      upto = rw fine (omega (arith, m1, m2, m3, m4, m5, t, s, p, q, a, r, o, g));
      typed = omega (arith, m2, m3, m5, t, s, p, q, a, r, o, g);
      system = omega (arith, m2, m3, m5, t, s, p, q, a, r, o, g);
      closed = omega (arith, m2, m3, m5, t, s, p, q, a, r, o, g);
      present = omega (arith, m2, m3, m5, t, s, p, q, a, r, o, g);
    }

-- The two descriptors that `entry` leaves in the GDT are, as the processor decodes them, a present local
-- descriptor table (type 2) and a present, available task state segment (type 9), at their addresses
-- and with their limits (the granularity bit counted), both closed to user programs; whatever the local variables held at first. The
-- addresses must have 32 bits and the limits 20.
pub init_segments_lem :
    (ldt ldt_size tss tss_size : ℕ) (local local' : SegDesc)
    → ldt < 2 ^ 32
    → ldt_size < 2 ^ 20
    → tss < 2 ^ 32
    → tss_size < 2 ^ 20
    → IsSystemSegment ldt ldt_size 2
        (init_segments ldt ldt_size tss tss_size local local').ldt_desc_ptr
      × IsSystemSegment tss tss_size 9
          (init_segments ldt ldt_size tss tss_size local local').tss_desc_ptr
unfolding init_segments the_ldt_desc the_tss_desc
init_segments_lem ldt ldt_size tss tss_size local local' h1 h2 h3 h4 = (
  set_params-IsSystemSegment ldt ldt_size 2 1 _ h1 h2 (omega arith) (omega arith)
      (refl, refl, refl, refl, refl, refl, refl, refl),
  set_params-IsSystemSegment tss tss_size 9 0 _ h3 h4 (omega arith) (omega arith)
      (refl, refl, refl, refl, refl, refl, refl, refl),
)
