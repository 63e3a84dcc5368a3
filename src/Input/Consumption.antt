-- ===== src/Input/Consumption.antt =====
-- src/input_parser.cpp: how many keys an event takes from the terminal, and which.
use mtop.Base.{
  Option-cases, ◌≢◌, ℕ, zero, suc, ◌+◌, ◌≤◌, ◌≡◌, refl, sym, ap, ◌∙◌, arith, true, false, not, ◌&&◌,
  ◌==◌, if◌then◌else◌, [], ◌∷◌, ◌++◌, append_assoc, length, length-append, Bool-cases, inl, inr,
  Bytes, if_rule,
}
use mtop.Base.Int.{ℤ, eqb_ℤ}
use mtop.Input.{
  Curses, err, escape, Terminal, InputEvent, read_key, unread_key, is_char, read_sequence,
  parse_defined_escape_sequence,
}
use mtop.Input.Events.{scan_report, mouse_event, read_payload, read_mouse, read_input_event}

-- What was typed: the terminal without its time-outs.
unfoldable pub typed : Terminal → Terminal
typed [] = []
typed (k ∷ keys) = if eqb_ℤ k err then typed keys else k ∷ typed keys

-- What one read has taken.
unfoldable pub one : ℤ → Terminal
one k = if eqb_ℤ k err then [] else k ∷ []

-- At most `n` keys were taken, from the front.
pub record Takes (n : ℕ) (keys rest : Terminal) : Type 0 where
  pub taken : Terminal
  pub from_front : typed keys ≡ taken ++ typed rest
  pub bound : length taken ≤ n

nothing : (n : ℕ) (keys : Terminal) → Takes n keys keys
nothing n keys = record { taken = []; from_front = refl; bound = omega arith }

more : {n m : ℕ} {keys rest : Terminal} → n ≤ m → Takes n keys rest → Takes m keys rest
more h t = record { taken = t.taken; from_front = t.from_front; bound = omega (arith, t.bound) }

then-Takes : {m n p : ℕ} {a b c : Terminal} → m + n ≤ p → Takes m a b → Takes n b c → Takes p a c
then-Takes h s t = record {
  taken = s.taken ++ t.taken;
  from_front = rw (s.from_front, t.from_front, append_assoc) refl;
  bound = rw (length-append s.taken t.taken) (omega (arith, s.bound, t.bound));
}

drop_first : (k : ℤ) (keys : Terminal) → typed (k ∷ keys) ≡ one k ++ typed keys
unfolding typed one
drop_first k keys = elim (Bool-cases (eqb_ℤ k err)) [ inl e ↦ rw e refl | inr e ↦ rw e refl ]

length-one : (k : ℤ) → length (one k) ≤ 1
unfolding one
length-one k = ground arith

take_first : (k : ℤ) (keys : Terminal) → Takes 1 (k ∷ keys) keys
take_first k keys = record { taken = one k; from_front = drop_first k keys; bound = length-one k }

read_key-typed : (keys : Terminal) → typed keys ≡ one (read_key keys).0 ++ typed (read_key keys).1
unfolding read_key typed one
read_key-typed [] = refl
read_key-typed (k ∷ keys) = drop_first k keys

read_key-Takes : (keys : Terminal) → Takes 1 keys (read_key keys).1
read_key-Takes keys = record {
  taken = one (read_key keys).0;
  from_front = read_key-typed keys;
  bound = length-one (read_key keys).0;
}

read_sequence-Takes : (guard : ℕ) (keys : Terminal) → Takes guard keys (read_sequence guard keys).1
unfolding read_sequence
read_sequence-Takes zero keys = nothing 0 keys
read_sequence-Takes (suc guard) [] = nothing (suc guard) []
read_sequence-Takes (suc guard) (next ∷ keys) =
    if_rule (λ (r : Bytes × Terminal). Takes (suc guard) (next ∷ keys) r.1) (eqb_ℤ next err)
      (λ e. more (omega arith) (take_first next keys))
      λ e.
        if_rule (λ (r : Bytes × Terminal). Takes (suc guard) (next ∷ keys) r.1) _
          (λ e. more (omega arith) (take_first next keys))
          λ e. then-Takes (omega arith) (take_first next keys) (read_sequence-Takes guard keys)

read_payload-Takes : (guard : ℕ) (keys : Terminal) → Takes guard keys (read_payload guard keys).1.1
unfolding read_payload
read_payload-Takes zero keys = nothing 0 keys
read_payload-Takes (suc guard) [] = nothing (suc guard) []
read_payload-Takes (suc guard) (next ∷ keys) =
    if_rule (λ (r : Bytes × (ℕ × Terminal)). Takes (suc guard) (next ∷ keys) r.1.1) (eqb_ℤ next err)
      (λ e. more (omega arith) (take_first next keys))
      λ e.
        if_rule (λ (r : Bytes × (ℕ × Terminal)). Takes (suc guard) (next ∷ keys) r.1.1) _
          (λ e. more (omega arith) (take_first next keys))
          λ e. then-Takes (omega arith) (take_first next keys) (read_payload-Takes guard keys)

module _ ⦃c : Curses⦄ where
  parse_defined_escape_sequence-Takes :
      (second third : ℤ) (keys : Terminal)
      → Takes 8 keys (parse_defined_escape_sequence second third keys).1
  unfolding parse_defined_escape_sequence
  parse_defined_escape_sequence-Takes second third keys =
      ground (arith, nothing 8 keys, read_sequence-Takes 8 keys)

  read_mouse-Takes : (keys : Terminal) → Takes 32 keys (read_mouse keys).1
  unfolding read_mouse
  read_mouse-Takes keys = read_payload-Takes 32 keys

  -- a mouse report, and what is taken for one, is an escape sequence
  mouse_parsed : (keys : Terminal) → (read_mouse keys).0.parsed_escape ≢ false
  unfolding read_mouse mouse_event
  mouse_parsed keys =
      let report = read_payload 32 keys in
      let P : InputEvent → Type 0 = λ event. event.parsed_escape ≢ false in
      if_rule P (report.1.0 == 0) (λ _ e. cc)
        λ _. elim (Option-cases (scan_report report.0)) [
          | inl e ↦ rw e (λ h. cc)
          | inr (r, e) ↦ rw e (λ h. cc)
        ]

  -- a read that timed out took nothing
  timed_out :
      (keys : Terminal) → eqb_ℤ (read_key keys).0 err ≡ true → typed keys ≡ typed (read_key keys).1
  unfolding one
  timed_out keys e = read_key-typed keys ∙ rw e refl

  -- the second key is put back where the third read times out
  unread :
      (keys : Terminal)
      → eqb_ℤ (read_key (read_key keys).1).0 err ≡ true
      → typed keys ≡ typed (unread_key (read_key keys).0 (read_key (read_key keys).1).1)
  unfolding unread_key
  unread keys e =
      read_key-typed keys
      ∙ (ap (λ l. one (read_key keys).0 ++ l) (timed_out (read_key keys).1 e)
          ∙ sym (drop_first (read_key keys).0 (read_key (read_key keys).1).1))

  -- An event takes at most 35 keys, from the front; what it does not take is still there, in order.
  pub read_input_event-Takes : (keys : Terminal) → Takes 35 keys (read_input_event keys).1
  unfolding read_input_event
  read_input_event-Takes keys =
      let first = read_key keys in
      let second = read_key first.1 in
      let third = read_key second.1 in
      let two : Takes 2 keys second.1 =
        then-Takes (omega arith) (read_key-Takes keys) (read_key-Takes first.1) in
      let three : Takes 3 keys third.1 = then-Takes (omega arith) two (read_key-Takes second.1) in
      let P : InputEvent × Terminal → Type 0 = λ r. Takes 35 keys r.1 in
      if_rule P (not (eqb_ℤ first.0 escape)) (λ _. more (omega arith) (read_key-Takes keys))
        λ _.
          if_rule P (eqb_ℤ second.0 err) (λ _. more (omega arith) two)
            λ _.
              if_rule P (eqb_ℤ third.0 err)
                (λ e.
                  then-Takes {n = 0} (omega arith) (read_key-Takes keys)
                    record { taken = []; from_front = unread first.1 e; bound = omega arith })
                λ _.
                  if_rule P (is_char second.0 b'[' && is_char third.0 b'<')
                    (λ _. then-Takes {n = 32} (omega arith) three (read_mouse-Takes third.1))
                    λ _.
                      then-Takes (omega arith) three
                        (parse_defined_escape_sequence-Takes second.0 third.0 third.1)

  -- An event that is no escape sequence takes its own key only, or nothing where the read timed out.
  read_input_event-plain :
      (keys : Terminal)
      → (read_input_event keys).0.parsed_escape ≡ false
      → typed keys ≡ one (read_input_event keys).0.key ++ typed (read_input_event keys).1
  unfolding read_input_event
  read_input_event-plain keys =
      let first = read_key keys in
      let second = read_key first.1 in
      let third = read_key second.1 in
      let P : InputEvent × Terminal → Type 0 =
        λ r. r.0.parsed_escape ≡ false → typed keys ≡ one r.0.key ++ typed r.1 in
      if_rule P (not (eqb_ℤ first.0 escape)) (λ _ _. read_key-typed keys)
        λ _.
          if_rule P (eqb_ℤ second.0 err)
            (λ e _. read_key-typed keys ∙ ap (λ l. one first.0 ++ l) (timed_out first.1 e))
            λ _.
              if_rule P (eqb_ℤ third.0 err)
                (λ e _. read_key-typed keys ∙ ap (λ l. one first.0 ++ l) (unread first.1 e))
                λ _.
                  if_rule P (is_char second.0 b'[' && is_char third.0 b'<')
                    (λ _ n. absurd (mouse_parsed third.1 n)) λ _ n. cc
