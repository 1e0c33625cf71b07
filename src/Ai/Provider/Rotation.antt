-- ===== src/Ai/Provider/Rotation.antt =====
-- Which accounts `chat` asks, and when it gives up (app/cloudflare_ai/provider.py).
use telegram_auto.Prelude.{
  ℕ, zero, suc, ◌+◌, ◌-◌, ◌%◌, ◌<◌, ◌≡◌, refl, sym, ap, ◌∙◌, Bool, true, false, some, List, Text,
  ◌==◌, nat_eq, text_eq, arith, if◌then◌else◌, length, get_elem?, get_elem?-lt, inl, inr, ◌⊎◌,
  Bool-cases,
}
use mathlib.Core.Path.{subst}
use native.Mathlib.Nat.{mod-lt, mod-eq_of_lt, mod-add-mod, add-mod-mod, add-mod_right}
use telegram_auto.Ai.Store.{Account, usable_accounts, mark_used}
use telegram_auto.Ai.Provider.{
  Verdict, answers, refuses_format, rotates, breaks, judge, Outcome, answered, no_accounts,
  format_unsupported, request_failed, no_response, quota_exhausted, index_error, Provider, Chat,
  give_up, chat_from, start_index, chat,
}

-- the ends after the loop
abbrev pub gave_up : Outcome → Bool
gave_up (answered content name) = false
gave_up no_accounts = false
gave_up (format_unsupported e) = false
gave_up (request_failed e) = false
gave_up no_response = true
gave_up quota_exhausted = true
gave_up index_error = false

abbrev pub is_rotation : Verdict → Bool
is_rotation (answers content) = false
is_rotation (refuses_format e) = false
is_rotation (rotates e exhausted hit) = true
is_rotation (breaks e) = false

-- The account at the index was asked in an attempt, and its reply led on to the next account.
abbrev pub Rotated : Chat → List Account → ℕ → Type 0
Rotated c accounts i =
    (n : ℕ) × ((a : Account) × (get_elem? accounts i ≡ some a)
      × (is_rotation (judge c.with_format (c.reply n a)) ≡ true))

-- What a verdict is, with the equation.
Verdict-cases :
    (v : Verdict)
    → ((e : Text) × ((x : Bool) × ((h : Bool) × (v ≡ rotates e x h))))
      ⊎ (((t : Text) × (v ≡ answers t))
          ⊎ (((e : Text) × (v ≡ refuses_format e)) ⊎ ((e : Text) × (v ≡ breaks e))))
Verdict-cases (rotates e x h) = inl (e, (x, (h, refl)))
Verdict-cases (answers t) = inr (inl (t, refl))
Verdict-cases (refuses_format e) = inr (inr (inl (e, refl)))
Verdict-cases (breaks e) = inr (inr (inr (e, refl)))

module _ (c : Chat) (accounts : List Account) where
  next_index :
      (idx d : ℕ)
      → ((idx + 1) % length accounts + d) % length accounts ≡ (idx + suc d) % length accounts
  next_index idx d =
      mod-add-mod (idx + 1) (length accounts) d ∙ ap (λ k. k % length accounts) (omega arith)

  chat_from-Rotated :
      (left n idx hits : ℕ) (p : Provider) (d : ℕ)
      → idx < length accounts
      → d < left
      → gave_up (chat_from c accounts left n idx hits p).0 ≡ true
      → Rotated c accounts ((idx + d) % length accounts)
  unfolding chat_from
  chat_from-Rotated zero n idx hits p d below few = let bad : ⊥ = omega arith in elim bad [ ]
  chat_from-Rotated (suc left) n idx hits p zero below few =
      let (a, at) = get_elem?-lt accounts idx below in
      let here : idx ≡ (idx + 0) % length accounts =
        sym (ap (λ k. k % length accounts) (omega arith) ∙ mod-eq_of_lt below) in
      elim (Verdict-cases (judge c.with_format (c.reply n a))) [
        | inl (e, (x, (h, v))) ↦
            λ up. subst (Rotated c accounts) here (n, (a, at, ap is_rotation v))
        | inr (inl (t, v)) ↦ rw (at, v, chat_from) (λ up. cc)
        | inr (inr (inl (e, v))) ↦ rw (at, v, chat_from) (λ up. cc)
        | inr (inr (inr (e, v))) ↦ rw (at, v, chat_from) (λ up. cc)
      ]
  chat_from-Rotated (suc left) n idx hits p (suc d) below few =
      let (a, at) = get_elem?-lt accounts idx below in
      let p' : ℕ → Text → Bool → Provider =
        λ now e x. record p { rows = mark_used a.name e x now p.rows } in
      elim (Verdict-cases (judge c.with_format (c.reply n a))) [
        | inl (e, (x, (h, v))) ↦
            rw (at, v, chat_from)
              (λ up. subst (Rotated c accounts) (next_index idx d) (
                chat_from-Rotated left (suc n) ((idx + 1) % length accounts)
                  (if h then suc hits else hits) (p' (c.clock n) e x) d
                  (mod-lt (idx + 1) (omega arith)) (omega arith) up))
        | inr (inl (t, v)) ↦ rw (at, v, chat_from) (λ up. cc)
        | inr (inr (inl (e, v))) ↦ rw (at, v, chat_from) (λ up. cc)
        | inr (inr (inr (e, v))) ↦ rw (at, v, chat_from) (λ up. cc)
      ]

  reached_index :
      (idx i : ℕ)
      → idx < length accounts
      → i < length accounts
      → (idx + (i + length accounts - idx) % length accounts) % length accounts ≡ i
  reached_index idx i h k =
      add-mod-mod idx (i + length accounts - idx) (length accounts)
      ∙ ap (λ n. n % length accounts) (omega arith)
      ∙ add-mod_right i (length accounts)
      ∙ mod-eq_of_lt k

  -- An account was asked in an attempt, with this verdict.
  abbrev pub Asked : Verdict → (Account → Type 0) → Type 0
  Asked v P =
      (n : ℕ) × ((i : ℕ) × ((a : Account) × (get_elem? accounts i ≡ some a)
          × (judge c.with_format (c.reply n a) ≡ v)
          × P a))

  -- what each way to end says of the accounts
  abbrev pub Ends : Outcome → Type 0
  Ends (answered content name) = Asked (answers content) (λ a. a.name ≡ name)
  Ends no_accounts = length accounts ≡ 0
  Ends (format_unsupported e) = Asked (refuses_format e) (λ a. Unit)
  Ends (request_failed e) = Asked (breaks e) (λ a. Unit)
  Ends no_response = (i : ℕ) → i < length accounts → Rotated c accounts i
  Ends quota_exhausted =
      ((i : ℕ) → i < length accounts → Rotated c accounts i)
      × ((e : Text) × ((x : Bool) × Asked (rotates e x true) (λ a. Unit)))
  Ends index_error = ⊥

  -- the same where the loop ends, for the hits that were counted
  abbrev Hit : ℕ → Type 0
  Hit zero = Unit
  Hit (suc hits) = (e : Text) × ((x : Bool) × Asked (rotates e x true) (λ a. Unit))

  abbrev LoopEnds : Outcome → Type 0
  LoopEnds (answered content name) = Ends (answered content name)
  LoopEnds no_accounts = ⊥
  LoopEnds (format_unsupported e) = Ends (format_unsupported e)
  LoopEnds (request_failed e) = Ends (request_failed e)
  LoopEnds no_response = Unit
  LoopEnds quota_exhausted = (e : Text) × ((x : Bool) × Asked (rotates e x true) (λ a. Unit))
  LoopEnds index_error = ⊥

  give_up-LoopEnds : (hits : ℕ) → Hit hits → LoopEnds (give_up hits)
  give_up-LoopEnds zero h = tt
  give_up-LoopEnds (suc hits) h = h

  count-Hit :
      (n idx hits : ℕ) (a : Account) (e : Text) (x h : Bool)
      → get_elem? accounts idx ≡ some a
      → judge c.with_format (c.reply n a) ≡ rotates e x h
      → Hit hits
      → Hit (if h then suc hits else hits)
  count-Hit n idx hits a e x true at v before = (e, (x, (n, (idx, (a, at, v, tt)))))
  count-Hit n idx hits a e x false at v before = before

  chat_from-LoopEnds :
      (left n idx hits : ℕ) (p : Provider)
      → idx < length accounts
      → Hit hits
      → LoopEnds (chat_from c accounts left n idx hits p).0
  unfolding chat_from
  chat_from-LoopEnds zero n idx hits p below before = give_up-LoopEnds hits before
  chat_from-LoopEnds (suc left) n idx hits p below before =
      let (a, at) = get_elem?-lt accounts idx below in
      elim (Verdict-cases (judge c.with_format (c.reply n a))) [
        | inl (e, (x, (h, v))) ↦
            rw (at, v, chat_from)
              (chat_from-LoopEnds left (suc n) ((idx + 1) % length accounts)
                (if h then suc hits else hits)
                (record p { rows = mark_used a.name e x (c.clock n) p.rows })
                (mod-lt (idx + 1) (omega arith)) (count-Hit n idx hits a e x h at v before))
        | inr (inl (t, v)) ↦ rw (at, v, chat_from) (n, (idx, (a, at, v, refl)))
        | inr (inr (inl (e, v))) ↦ rw (at, v, chat_from) (n, (idx, (a, at, v, tt)))
        | inr (inr (inr (e, v))) ↦ rw (at, v, chat_from) (n, (idx, (a, at, v, tt)))
      ]

  loop-Ends :
      (o : Outcome)
      → LoopEnds o
      → (gave_up o ≡ true → (i : ℕ) → i < length accounts → Rotated c accounts i)
      → Ends o
  loop-Ends (answered content name) h up = h
  loop-Ends no_accounts h up = elim h [ ]
  loop-Ends (format_unsupported e) h up = h
  loop-Ends (request_failed e) h up = h
  loop-Ends no_response h up = up refl
  loop-Ends quota_exhausted h up = (up refl, h)
  loop-Ends index_error h up = h

start_index-lt :
    (idx : ℕ) (accounts : List Account)
    → 0 < length accounts
    → start_index idx accounts < length accounts
unfolding start_index
start_index-lt idx accounts h = ground arith

-- `chat` ends in one of these ways. It answers with what a usable account answered, under that
-- account's name; it fails or reports an unsupported format only if a usable account's reply was
-- of that kind; it finds no accounts only if none is usable; and it gives up only after every
-- usable account was asked and its reply led on to the next, with the report of an exhausted
-- quota only if a reply was a refusal for the quota. It never indexes the accounts out of range,
-- whatever index was left by earlier calls.
pub chat-Ends :
    (c : Chat) (now : ℕ) (p : Provider) → Ends c (usable_accounts now p.rows) (chat c now p).0
unfolding chat
chat-Ends c now p =
    let accounts = usable_accounts now p.rows in
    let idx = start_index p.current_idx accounts in
    let q : Provider = record p { current_idx = idx } in
    elim (Bool-cases (length accounts == 0)) [
      | inl nobody ↦ rw nobody (ground arith)
      | inr some_ ↦
          let below = start_index-lt p.current_idx accounts (ground arith) in
          rw some_ (
            loop-Ends c accounts (chat_from c accounts (length accounts) 0 idx 0 q).0
              (chat_from-LoopEnds c accounts (length accounts) 0 idx 0 q below tt)
              (λ up i h. subst (Rotated c accounts) (reached_index c accounts idx i below h) (
                chat_from-Rotated c accounts (length accounts) 0 idx 0 q
                  ((i + length accounts - idx) % length accounts) below
                  (mod-lt (i + length accounts - idx) (omega arith)) up)))
    ]
