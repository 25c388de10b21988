-- ===== src/Modbus/Device/Words.antt =====
-- What a read of words gives on a device whose holding registers do not change.
use instro.Modbus.Device.{Device, swaps_of, require_ready, read_value}
use instro.Prelude.{
  ℕ, zero, suc, ◌+◌, ◌≤◌, ◌≡◌, refl, ap, ◌∙◌, true, false, List, [], ◌∷◌, arith, take, drop, Result,
  ok,
}
use instro.Float.{Floats, Number}
use instro.Modbus.{RegisterType, holding, register_count}
use instro.Modbus.Codec.{decode_registers}
use instro.Modbus.Register.{RegisterDef}
use instro.Modbus.Line.{
  Pymodbus, Line, registers, read_holding, read_holding_registers, modbus_op, send, check_unit_id,
  registers_of,
}
use instro.Modbus.Line.Typed.{read_typed}

-- the words at a, a + 1, ...
unfoldable pub window : (ℕ → ℕ) → ℕ → ℕ → List ℕ
window mem a zero = []
window mem a (suc n) = mem a ∷ window mem (suc a) n

take-window : (mem : ℕ → ℕ) (a n m : ℕ) → n ≤ m → take n (window mem a m) ≡ window mem a n
unfolding window
take-window mem a zero m h = refl
take-window mem a (suc n) zero h = absurd (omega arith)
take-window mem a (suc n) (suc m) h =
    ap (λ xs. mem a ∷ xs) (take-window mem (suc a) n m (omega arith))

pub part-window :
    (mem : ℕ → ℕ) (a k n m : ℕ)
    → k + n ≤ m
    → take n (drop k (window mem a m)) ≡ window mem (a + k) n
unfolding window
part-window mem a zero n m h =
    take-window mem a n m (omega arith) ∙ ap (λ b. window mem b n) (omega arith)
part-window mem a (suc k) n zero h = absurd (omega arith)
part-window mem a (suc k) n (suc m) h =
    part-window mem (suc a) k n m (omega arith) ∙ ap (λ b. window mem b n) (omega arith)

module _ {W : Type 0} (py : Pymodbus W) (max_unit_id unit_id : ℕ) (fl : Floats) where
  -- the device answers with the holding registers `mem`, which do not change
  abbrev pub Answers : (ℕ → ℕ) → Type 0
  Answers mem =
      (a n : ℕ) (w : W) → (py.call (read_holding a n) unit_id w).0 ≡ registers (window mem a n)

  pub record Ready (s : Device W) : Type 0 where
    pub running : s.stop_event ≡ false
    pub is_open : s.opened ≡ true
    pub connected : s.line.client ≡ true

  pub answered :
      (mem : ℕ → ℕ) (a n : ℕ) (l : Line W)
      → Answers mem
      → unit_id ≤ max_unit_id
      → l.client ≡ true
      → (let o = read_holding_registers py max_unit_id a n unit_id l in
          (o.0 ≡ ok (window mem a n)) × (o.1.client ≡ true))
  unfolding read_holding_registers modbus_op send check_unit_id registers_of
  answered mem a n l k u c = ground (arith, k a n l.world, u, c)

  -- what a single read of a member makes of the words
  abbrev pub decoded : (ℕ → ℕ) → RegisterDef fl → Result (Number fl)
  decoded mem r =
      decode_registers fl (window mem r.starting_address (register_count r.data_type)) r.data_type
        r.byte_swap r.word_swap r.long_swap

  typed_read :
      (mem : ℕ → ℕ) (t : RegisterType) (r : RegisterDef fl) (l : Line W)
      → t ≡ holding
      → Answers mem
      → unit_id ≤ max_unit_id
      → l.client ≡ true
      → (let o =
            read_typed py max_unit_id fl t r.starting_address r.data_type unit_id
              (swaps_of fl r)
              l in
          (o.0 ≡ decoded mem r) × (o.1.client ≡ true))
  unfolding read_typed
  typed_read mem holding r l e k u c =
      let (words, open_still) =
        answered mem r.starting_address (register_count r.data_type) l k u c in
      (rw words refl, rw words open_still)
  typed_read mem RegisterType.input r l e k u c = absurd (cc)
  typed_read mem RegisterType.coil r l e k u c = absurd (cc)
  typed_read mem RegisterType.discrete r l e k u c = absurd (cc)

  pub require_ready-Ready :
      (s : Device W) → Ready s → require_ready py max_unit_id unit_id fl s ≡ (ok tt, s)
  unfolding require_ready
  require_ready-Ready s h = rw (h.running, h.is_open, h.connected) refl

  pub value_read :
      (mem : ℕ → ℕ) (r : RegisterDef fl) (s : Device W)
      → r.register_type ≡ holding
      → Answers mem
      → unit_id ≤ max_unit_id
      → Ready s
      → (let o = read_value py max_unit_id unit_id fl r s in (o.0 ≡ decoded mem r) × Ready o.1)
  unfolding read_value
  value_read mem r s e k u h =
      let (value, connected) = typed_read mem r.register_type r s.line e k u h.connected in
      rw (require_ready-Ready s h)
        (value, record { running = h.running; is_open = h.is_open; connected = connected })
