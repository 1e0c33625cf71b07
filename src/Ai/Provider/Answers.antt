-- ===== src/Ai/Provider/Answers.antt =====
-- When `chat` answers (app/cloudflare_ai/provider.py).
use telegram_auto.Prelude.{
  ℕ, ◌<◌, ◌≡◌, refl, sym, ap, ◌∙◌, Bool, true, false, ◌||◌, some, List, arith, length, get_elem?,
}
use mathlib.Core.Path.{subst}
use mathlib.Core.Option.{some-injective}
use telegram_auto.Ai.Store.{Account, usable_accounts}
use telegram_auto.Ai.Provider.{
  Verdict, answers, refuses_format, rotates, breaks, judge, Outcome, answered, no_accounts,
  format_unsupported, request_failed, no_response, quota_exhausted, index_error, Provider, Chat,
  chat,
}
use telegram_auto.Ai.Provider.Rotation.{is_rotation, Rotated, Ends, chat-Ends}

abbrev pub is_answer : Verdict → Bool
is_answer (answers content) = true
is_answer (refuses_format e) = false
is_answer (rotates e exhausted hit) = false
is_answer (breaks e) = false

abbrev pub is_answered : Outcome → Bool
is_answered (answered content name) = true
is_answered no_accounts = false
is_answered (format_unsupported e) = false
is_answered (request_failed e) = false
is_answered no_response = false
is_answered quota_exhausted = false
is_answered index_error = false

-- A usable account answers in every attempt.
pub record Willing (c : Chat) (accounts : List Account) : Type 0 where
  pub index : ℕ
  pub account : Account
  pub stands : get_elem? accounts index ≡ some account
  pub below : index < length accounts
  pub answering : (n : ℕ) → is_answer (judge c.with_format (c.reply n account)) ≡ true

not_both : (v : Verdict) → is_answer v ≡ true → is_rotation v ≡ true → ⊥
not_both (answers t) a r = cc
not_both (refuses_format e) a r = cc
not_both (rotates e x h) a r = cc
not_both (breaks e) a r = cc

Willing-not-Rotated :
    (c : Chat) (accounts : List Account) (w : Willing c accounts) → Rotated c accounts w.index → ⊥
Willing-not-Rotated c accounts w (n, (a, at, r)) =
    let same : w.account ≡ a = some-injective w.account a (sym w.stands ∙ at) in
    not_both (judge c.with_format (c.reply n a))
      (subst (λ b. is_answer (judge c.with_format (c.reply n b)) ≡ true) same (w.answering n)) r

is_answered-Ends :
    (c : Chat) (accounts : List Account) (o : Outcome)
    → Willing c accounts
    → ((n : ℕ) (a : Account)
        → is_rotation (judge c.with_format (c.reply n a))
            || is_answer (judge c.with_format (c.reply n a))
          ≡ true)
    → Ends c accounts o
    → is_answered o ≡ true
is_answered-Ends c accounts (answered content name) w mild h = refl
is_answered-Ends c accounts no_accounts w mild h = let b = w.below in ground arith
is_answered-Ends c accounts (format_unsupported e) w mild (n, (i, (a, at, v, t))) =
    sym (ap (λ x. is_rotation x || is_answer x) v) ∙ mild n a
is_answered-Ends c accounts (request_failed e) w mild (n, (i, (a, at, v, t))) =
    sym (ap (λ x. is_rotation x || is_answer x) v) ∙ mild n a
is_answered-Ends c accounts no_response w mild h =
    elim (Willing-not-Rotated c accounts w (h w.index w.below)) [ ]
is_answered-Ends c accounts quota_exhausted w mild h =
    elim (Willing-not-Rotated c accounts w (h.0 w.index w.below)) [ ]
is_answered-Ends c accounts index_error w mild h = elim h [ ]

-- If one usable account answers whenever it is asked, and the others' replies lead to the next
-- account where they are no answers, `chat` answers, however many accounts are out of quota or
-- unreachable.
pub chat-is_answered :
    (c : Chat) (now : ℕ) (p : Provider)
    → Willing c (usable_accounts now p.rows)
    → ((n : ℕ) (a : Account)
        → is_rotation (judge c.with_format (c.reply n a))
            || is_answer (judge c.with_format (c.reply n a))
          ≡ true)
    → is_answered (chat c now p).0 ≡ true
chat-is_answered c now p w mild =
    is_answered-Ends c (usable_accounts now p.rows) (chat c now p).0 w mild (chat-Ends c now p)
