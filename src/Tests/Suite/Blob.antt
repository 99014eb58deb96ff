-- ===== src/Tests/Suite/Blob.antt =====
-- The test of src/probe.rs on the raw `tcp_info`. Those that measure a connection of the kernel are
-- left out.
use mathlib.Core.Option
use wire_probe.Prelude.{
  ℕ, replicate, false, ◌/◌, ◌%◌, ◌+◌, Bool, true, ◌&&◌, not, ◌≡◌, refl, [], ◌∷◌, ◌++◌, Bytes, take,
  drop, Option, some, none,
}
use wire_probe.Probe.{
  Endian, little, big, tcp_info_retrans_offset, get_range, u32_from_ne_bytes, read_u32,
  rtt_us_from_blob, rtt_from_blob,
}
use wire_probe.Tests.Suite.{thousandths}

-- `u32::to_ne_bytes`
abbrev u32_to_ne_bytes : Endian → ℕ → Bytes
u32_to_ne_bytes little k =
    (k % 0x100) ∷ (k / 0x100 % 0x100) ∷ (k / 0x10000 % 0x100) ∷ (k / 0x1000000) ∷ []
u32_to_ne_bytes big k =
    (k / 0x1000000) ∷ (k / 0x10000 % 0x100) ∷ (k / 0x100 % 0x100) ∷ (k % 0x100) ∷ []

-- The blob that `getsockopt` left, with `total_retrans` written over.
abbrev patched_blob : Endian → (buf : Bytes) → (retrans : ℕ) → Bytes
patched_blob e buf retrans =
    take tcp_info_retrans_offset buf
    ++ (u32_to_ne_bytes e retrans ++ drop (tcp_info_retrans_offset + 4) buf)

abbrev is_some {ℓ} : {A : Type ℓ} → Option A → Bool
is_some none = false
is_some (some a) = true

-- On the blob of the connection, whichever the kernel gives.
abbrev a_retransmitted_syn_refuses_the_kernel_value : Endian → (buf : Bytes) → Bool
a_retransmitted_syn_refuses_the_kernel_value e buf =
    is_some (rtt_from_blob thousandths e buf)
    && (not (is_some (rtt_from_blob thousandths e (patched_blob e buf 1)))
        && is_some (rtt_from_blob thousandths e (patched_blob e buf 0)))

-- An established connection with a round trip of 250 microseconds.
abbrev established : Endian → Bytes
established e = 1 ∷ (replicate 67 0 ++ (u32_to_ne_bytes e 250 ++ replicate 32 0))

blob_passes :
    (a_retransmitted_syn_refuses_the_kernel_value little (established little) ≡ true)
    × (a_retransmitted_syn_refuses_the_kernel_value big (established big) ≡ true)
unfolding rtt_from_blob rtt_us_from_blob read_u32 get_range u32_from_ne_bytes Option.bind
blob_passes = (refl, refl)
