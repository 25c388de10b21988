-- ===== src/Modbus/Codec/Registers.antt =====
-- Bytes to registers and back, through the swaps.
use instro.Prelude.{
  lt→ltb, ℕ, zero, suc, ◌*◌, ◌<◌, ◌≡◌, refl, ap, ◌∙◌, Bool, List, [], ◌∷◌, ◌++◌, arith, length, ok,
}
use instro.Modbus.Bytes.{AllBytes, be_value, be_bytes, byte_swapped, word_swapped, long_swapped}
use instro.Modbus.Swaps.{
  length-byte_swapped, length-word_swapped, length-long_swapped, byte_swapped_twice,
  word_swapped_twice, long_swapped_twice, byte_swapped-AllBytes, word_swapped-AllBytes,
  long_swapped-AllBytes,
}
use instro.Modbus.Codec.{reg_bytes, regs_bytes, words, to_registers}

abbrev pub AllRegisters : List ℕ → Type 0
AllRegisters [] = Unit {0}
AllRegisters (r ∷ rs) = (r < 65536) × AllRegisters rs

-- what `decode_registers` does to the bytes before it unpacks them
abbrev pub unswap : Bool → Bool → Bool → List ℕ → List ℕ
unswap b w l raw = long_swapped l (word_swapped w (byte_swapped b raw))

abbrev pub swap : Bool → Bool → Bool → List ℕ → List ℕ
swap b w l raw = byte_swapped b (word_swapped w (long_swapped l raw))

pub unswap-swap : (b w l : Bool) (raw : List ℕ) → unswap b w l (swap b w l raw) ≡ raw
unswap-swap b w l raw = simp (byte_swapped_twice, word_swapped_twice, long_swapped_twice)

pub swap-unswap : (b w l : Bool) (raw : List ℕ) → swap b w l (unswap b w l raw) ≡ raw
swap-unswap b w l raw = simp (byte_swapped_twice, word_swapped_twice, long_swapped_twice)

pub length-swap : (b w l : Bool) (raw : List ℕ) → length (swap b w l raw) ≡ length raw
length-swap b w l raw = simp (length-byte_swapped, length-word_swapped, length-long_swapped)

pub length-unswap : (b w l : Bool) (raw : List ℕ) → length (unswap b w l raw) ≡ length raw
length-unswap b w l raw = simp (length-byte_swapped, length-word_swapped, length-long_swapped)

pub swap-AllBytes : (b w l : Bool) (raw : List ℕ) → AllBytes raw → AllBytes (swap b w l raw)
swap-AllBytes b w l raw h =
    byte_swapped-AllBytes b _ (word_swapped-AllBytes w _ (long_swapped-AllBytes l raw h))

pub unswap-AllBytes : (b w l : Bool) (raw : List ℕ) → AllBytes raw → AllBytes (unswap b w l raw)
unswap-AllBytes b w l raw h =
    long_swapped-AllBytes l _ (word_swapped-AllBytes w _ (byte_swapped-AllBytes b raw h))

reg_bytes-pair :
    (a b : ℕ) → a < 256 → b < 256 → reg_bytes (be_value 0 (a ∷ b ∷ [])) ≡ ok (a ∷ b ∷ [])
unfolding be_value be_bytes
reg_bytes-pair a b ha hb = ground arith

-- An even number of bytes comes back from its registers.
pub regs_bytes-words :
    (n : ℕ) (bs : List ℕ)
    → AllBytes bs
    → length bs ≡ n * 2
    → (regs_bytes (words bs) ≡ ok bs) × (length (words bs) ≡ n)
unfolding regs_bytes words
regs_bytes-words zero [] h e = (refl, refl)
regs_bytes-words (suc n) [] h e = absurd (omega arith)
regs_bytes-words n (a ∷ []) h e = absurd (omega arith)
regs_bytes-words zero (a ∷ b ∷ r) h e = absurd (omega arith)
regs_bytes-words (suc n) (a ∷ b ∷ r) h e =
    let ih = regs_bytes-words n r h.1.1 (omega arith) in
    (rw (reg_bytes-pair a b h.0 h.1.0, ih.0), ap suc ih.1)

words-pair : (reg : ℕ) (r : List ℕ) → reg < 65536 → words (be_bytes 2 reg ++ r) ≡ reg ∷ words r
unfolding words be_bytes be_value
words-pair reg r h = ap (λ k. k ∷ words r) (omega arith)

pub record Bytes (regs : List ℕ) : Type 0 where
  pub bytes : List ℕ
  pub read : regs_bytes regs ≡ ok bytes
  pub back : words bytes ≡ regs
  pub all_bytes : AllBytes bytes
  pub size : length bytes ≡ length regs * 2

Bytes-cons : (reg : ℕ) (regs : List ℕ) → reg < 65536 → Bytes regs → Bytes (reg ∷ regs)
unfolding regs_bytes be_bytes
Bytes-cons reg regs h b = record {
  bytes = be_bytes 2 reg ++ b.bytes;
  read = rw (lt→ltb reg 65536 h, b.read);
  back = words-pair reg b.bytes h ∙ ap (λ t. reg ∷ t) b.back;
  all_bytes = (omega arith, (omega arith, b.all_bytes));
  size = omega (arith, b.size);
}

-- Registers come back from their bytes.
pub read_registers : (regs : List ℕ) → AllRegisters regs → Bytes regs
read_registers [] h = record {
  bytes = [];
  read = unfold regs_bytes in refl;
  back = unfold words in refl;
  all_bytes = tt;
  size = refl;
}
read_registers (reg ∷ regs) h = Bytes-cons reg regs h.0 (read_registers regs h.1)

-- All of `encode_value` after packing, and all of `decode_registers` before unpacking.
pub regs_bytes-to_registers :
    (b w l : Bool) (n : ℕ) (raw : List ℕ)
    → AllBytes raw
    → length raw ≡ n * 2
    → (regs_bytes (to_registers b w l raw) ≡ ok (swap b w l raw))
      × (length (to_registers b w l raw) ≡ n)
unfolding to_registers
regs_bytes-to_registers b w l n raw h e =
    regs_bytes-words n (swap b w l raw) (swap-AllBytes b w l raw h) (length-swap b w l raw ∙ e)

pub to_registers-unswap :
    (b w l : Bool) (bs : List ℕ) → to_registers b w l (unswap b w l bs) ≡ words bs
unfolding to_registers
to_registers-unswap b w l bs = ap words (swap-unswap b w l bs)
