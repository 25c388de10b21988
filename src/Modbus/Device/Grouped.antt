-- ===== src/Modbus/Device/Grouped.antt =====
-- The read of a group gives what single reads of its members give.
use instro.Modbus.Device.{
  sym, read_members, read_group, Device, and_then, channels_of, word_member, gather, read_value,
}
use instro.Prelude.{
  ℕ, ◌+◌, ◌-◌, ◌≤◌, String, ◌≡◌, refl, ap, ◌∙◌, List, [], ◌∷◌, arith, Result, ok, err, subst, some,
}
use instro.Modbus.Config.Groups.{
  build_group_index, get_group, last_of, span, width, validate_config,
}
use instro.Modbus.Config.Groups.Bounds.{IsRead, validate_config_lem}
use instro.Prelude.Dict.{item-eq, or_key_error, Dict}
use instro.Float.{Floats, Number}
use instro.Prelude.Dict
use instro.Prelude.Exec.{Exec, pure, lift, resume, ◌>>=◌}
use instro.Modbus.{RegisterType, holding, register_count}
use instro.Modbus.Register.{RegisterDef}
use instro.Modbus.Config.Groups.Spans.{All}
use instro.Modbus.Line.{Pymodbus}
use instro.Modbus.Device.Words.{
  window, part-window, Answers, Ready, answered, decoded, require_ready-Ready, value_read,
}

module _ {W : Type 0} (py : Pymodbus W) (max_unit_id unit_id : ℕ) (fl : Floats) where
  -- each member read on its own, with the channels so far
  unfoldable pub read_singly :
      String
      → List (RegisterDef fl)
      → Dict (List (Number fl))
      → Exec (Device W) (Dict (List (Number fl)))
  read_singly name [] acc = pure acc
  read_singly name (r ∷ rs) acc = do
    raw ← read_value py max_unit_id unit_id fl r
    d ← lift (channels_of fl name r raw)
    read_singly name rs (Dict.update acc d)

  -- the rest of a single read, once its channels are known
  after_channels :
      (y : Result (Dict (List (Number fl)))) (name : String)
      (m : RegisterDef fl → Result (Dict (List (Number fl)))) (rs : List (RegisterDef fl))
      (acc : Dict (List (Number fl))) (s : Device W)
      → ((d : Dict (List (Number fl))) → (read_singly name rs d s).0 ≡ gather fl m rs d)
      → (resume (λ d. read_singly name rs (Dict.update acc d)) y s).0
        ≡ and_then y (λ d. gather fl m rs (Dict.update acc d))
  after_channels (err e) name m rs acc s h = refl
  after_channels (ok d) name m rs acc s h = h (Dict.update acc d)

  after_value :
      (x : Result (Number fl)) (r : RegisterDef fl) (name : String)
      (m : RegisterDef fl → Result (Dict (List (Number fl)))) (rs : List (RegisterDef fl))
      (acc : Dict (List (Number fl))) (s : Device W)
      → ((d : Dict (List (Number fl))) → (read_singly name rs d s).0 ≡ gather fl m rs d)
      → (resume
          (λ raw.
            lift (channels_of fl name r raw) >>= (λ d. read_singly name rs (Dict.update acc d)))
          x
          s).0
        ≡ and_then
            (and_then x (λ raw. channels_of fl name r raw))
            (λ d. gather fl m rs (Dict.update acc d))
  after_value (err e) r name m rs acc s h = refl
  after_value (ok raw) r name m rs acc s h =
      after_channels (channels_of fl name r raw) name m rs acc s h

  -- a member lies in the words from `start`
  abbrev Within : ℕ → ℕ → RegisterDef fl → Type 0
  Within start total r =
      (start ≤ r.starting_address)
      × (r.starting_address + register_count r.data_type ≤ start + total)
      × (r.register_type ≡ holding)

  member_decoded :
      (mem : ℕ → ℕ) (name : String) (start total : ℕ) (r : RegisterDef fl)
      → Within start total r
      → word_member fl name start (window mem start total) r
        ≡ and_then (decoded py max_unit_id unit_id fl mem r) (λ raw. channels_of fl name r raw)
  unfolding word_member
  member_decoded mem name start total r w =
      let lo = w.0 in
      let hi = w.1 in
      let k = r.starting_address - start in
      let part = part-window mem start k (register_count r.data_type) total (omega arith) in
      let here : start + k ≡ r.starting_address = omega arith in rw (part, here) refl

  read_singly-gather :
      (mem : ℕ → ℕ) (name : String) (start total : ℕ) (rs : List (RegisterDef fl))
      (acc : Dict (List (Number fl))) (s : Device W)
      → All fl (Within start total) rs
      → Answers py max_unit_id unit_id fl mem
      → unit_id ≤ max_unit_id
      → Ready py max_unit_id unit_id fl s
      → (read_singly name rs acc s).0
        ≡ gather fl (word_member fl name start (window mem start total)) rs acc
  unfolding read_singly gather
  read_singly-gather mem name start total [] acc s a k u h = refl
  read_singly-gather mem name start total (r ∷ rs) acc s a k u h =
      let (value, ready) = value_read py max_unit_id unit_id fl mem r s a.0.2 k u h in
      let m = word_member fl name start (window mem start total) in
      let next = (read_value py max_unit_id unit_id fl r s).1 in
      after_value (read_value py max_unit_id unit_id fl r s).0 r name m rs acc next
        (λ d. read_singly-gather mem name start total rs d next a.1 k u ready)
      ∙ rw (value, member_decoded mem name start total r a.0) refl

  words-Within :
      (first last : RegisterDef fl) (rs : List (RegisterDef fl))
      → first.register_type ≡ holding
      → All fl (IsRead fl first last) rs
      → All fl (Within first.starting_address (span fl first last)) rs
  unfolding width
  words-Within first last [] e h = tt
  words-Within first last (r ∷ rs) e h =
      let kind : r.register_type ≡ holding = h.0.2 ∙ e in
      let ends : r.starting_address + width fl r ≤ first.starting_address + span fl first last =
        h.0.1 in
      let wide : width fl r ≡ register_count r.data_type = rw kind refl in
      (
        (
          h.0.0,
          subst (λ w. r.starting_address + w ≤ first.starting_address + span fl first last) wide
              ends,
          kind,
        ),
        words-Within first last rs e h.1,
      )

  members_lem :
      (mem : ℕ → ℕ) (name : String) (t : RegisterType) (start total : ℕ)
      (rs : List (RegisterDef fl)) (s : Device W)
      → t ≡ holding
      → All fl (Within start total) rs
      → Answers py max_unit_id unit_id fl mem
      → unit_id ≤ max_unit_id
      → Ready py max_unit_id unit_id fl s
      → (read_members py max_unit_id unit_id fl name t start total rs s).0
        ≡ gather fl (word_member fl name start (window mem start total)) rs []
  unfolding read_members
  members_lem mem name holding start total rs s e a k u h =
      let (words, connected) =
        answered py max_unit_id unit_id fl mem start total s.line k u h.connected in
      rw (require_ready-Ready py max_unit_id unit_id fl s h, words) refl
  members_lem mem name RegisterType.input start total rs s e a k u h = absurd (cc)
  members_lem mem name RegisterType.coil start total rs s e a k u h = absurd (cc)
  members_lem mem name RegisterType.discrete start total rs s e a k u h = absurd (cc)

  -- In an accepted configuration, on an open device whose holding registers do not change meanwhile,
  -- the one read of a group of holding registers gives the channels that single reads of its members
  -- give, or raises what the first of them to raise does.
  pub read_group_lem :
      (mem : ℕ → ℕ) (configured : List (RegisterDef fl)) (name group_id : String)
      (first : RegisterDef fl) (rest : List (RegisterDef fl)) (s : Device W)
      → validate_config fl configured ≡ ok tt
      → Dict.get (build_group_index fl configured) group_id ≡ some (first ∷ rest)
      → first.register_type ≡ holding
      → Answers py max_unit_id unit_id fl mem
      → unit_id ≤ max_unit_id
      → Ready py max_unit_id unit_id fl s
      → (read_group py max_unit_id unit_id fl configured name group_id s).0
        ≡ (read_singly name (first ∷ rest) [] s).0
  unfolding read_group get_group
  read_group_lem mem configured name group_id first rest s v g e k u h =
      let total = span fl first (last_of fl first rest) in
      let (inside, limit) = validate_config_lem fl configured group_id first rest v g in
      let within = words-Within first (last_of fl first rest) (first ∷ rest) e inside in
      let found : get_group fl configured group_id ≡ ok (first ∷ rest) =
        item-eq (build_group_index fl configured) group_id ∙ ap or_key_error g in
      rw found (
        members_lem mem name first.register_type first.starting_address total (first ∷ rest) s e
          within k u h
        ∙ sym (
            read_singly-gather mem name first.starting_address total (first ∷ rest) [] s within k u
              h))
