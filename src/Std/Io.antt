-- ===== src/Std/Io.antt =====
-- `std::io::Error` by kind, `io::Result`, and `Vec<u8>` with its capacity.
use wire_probe.Prelude.{
  ℕ, ◌+◌, ◌*◌, ◌≤◌, ◌≡◌, ◌⊎◌, inl, inr, refl, ap, [], ◌∷◌, ◌++◌, Bytes, length, length-append, leb,
  if◌then◌else◌, arith,
}
use Prim.Native.Nat.{max}

-- The kinds that the program tells apart. `os` is any other, by its number.
pub data IoError : Type 0 where
  broken_pipe interrupted not_found would_block : IoError
  os : (errno : ℕ) → IoError

pub data IoResult {ℓ} (A : Type ℓ) : Type ℓ where
  ok : A → IoResult A
  err : IoError → IoResult A

pub IoResult-cases {ℓ} :
    {A : Type ℓ} (r : IoResult A) → ((a : A) × (r ≡ ok a)) ⊎ ((e : IoError) × (r ≡ err e))
IoResult-cases (ok a) = inl (a, refl)
IoResult-cases (err e) = inr (e, refl)

-- A growable buffer of bytes.
pub record Buffer : Type 0 where
  pub bytes : Bytes
  pub capacity : ℕ

abbrev pub with_capacity : ℕ → Buffer
with_capacity n = record { bytes = []; capacity = n }

-- The capacity after room for `needed` bytes is made: doubled, and at least eight, if it must grow.
abbrev pub reserve : (capacity needed : ℕ) → ℕ
reserve capacity needed =
    if leb needed capacity then capacity else max (max (capacity * 2) needed) 8

unfoldable pub extend_from_slice : Buffer → Bytes → Buffer
extend_from_slice b s = record {
  bytes = b.bytes ++ s;
  capacity = reserve b.capacity (length b.bytes + length s);
}

abbrev pub push : Buffer → ℕ → Buffer
push b c = extend_from_slice b (c ∷ [])

-- The bytes go, the capacity stays.
abbrev pub clear : Buffer → Buffer
clear b = record b { bytes = [] }

-- A buffer that holds its bytes within a capacity that has been `c` throughout.
pub record Holds (c : ℕ) (s : Bytes) (b : Buffer) : Type 0 where
  pub content : b.bytes ≡ s
  pub kept : length s ≤ c → b.capacity ≡ c

pub clear-Holds : (b : Buffer) → Holds b.capacity [] (clear b)
clear-Holds b = record { content = refl; kept = λ _. refl }

pub extend_from_slice-Holds :
    (c : ℕ) (s t : Bytes) (b : Buffer) → Holds c s b → Holds c (s ++ t) (extend_from_slice b t)
unfolding extend_from_slice
extend_from_slice-Holds c s t b h = record {
  content = rw h.content;
  kept = λ fits.
      let same = h.kept (omega (arith, length-append s t)) in
      let size = ap length h.content in ground (arith, same, size, fits, length-append s t);
}
