-- ===== src/Ai/Store/Quota.antt =====
-- When an account that ran out of its quota is used again (app/cloudflare_ai/store.py).
use telegram_auto.Prelude.{
  ℕ, ◌≡◌, ◌∙◌, Bool, true, false, ◌&&◌, List, Text, nat_eq, text_eq, arith, ltb, if◌then◌else◌,
  update_first,
}
use telegram_auto.Prelude.Filters.{count, count-filter, count-update_first, AtMostOne-of_count}
use telegram_auto.Ai.Store.{
  Account, list_accounts, has_name, utc_midnight, account_available, usable_accounts, note_error,
  note_use, mark_used,
}
use telegram_auto.Ai.Store.Names.{UniqueNames, key_of, count-list_accounts}

count-usable_accounts :
    (t : Account → Bool) (now : ℕ) (rows : List Account)
    → count t (usable_accounts now rows) ≡ count (λ r. account_available now r && t r) rows
unfolding usable_accounts
count-usable_accounts t now rows =
    count-filter t (account_available now) (list_accounts true rows)
    ∙ count-list_accounts (λ r. account_available now r && t r) rows

module _ (name error : Text) (now later : ℕ) (rows : List Account) (u : UniqueNames rows) where
  abbrev key : Text
  key = key_of name

  abbrev marked : Account → Account
  marked r = note_use true now (note_error error r)

  count-mark_used :
      (t v : Account → Bool)
      → ((r : Account)
          → has_name key r ≡ true
          → account_available later (marked r) && t (marked r) ≡ v r)
      → ((r : Account) → has_name key r ≡ false → account_available later r && t r ≡ v r)
      → count t (usable_accounts later (mark_used name error true now rows)) ≡ count v rows
  unfolding mark_used
  count-mark_used t v hit miss =
      count-usable_accounts t later (update_first (has_name key) marked rows)
      ∙ count-update_first (has_name key) (λ r. account_available later r && t r) v marked rows
          (AtMostOne-of_count (has_name key) rows (u key)) hit miss

  -- An account that ran out of its quota is not usable before the next midnight in UTC, and from then
  -- on it is usable if it is active; the others are as usable as before. Names are unique, and the
  -- accounts are counted by their names.
  pub usable_accounts-mark_used :
      (other : Text)
      → count (has_name other) (usable_accounts later (mark_used name error true now rows))
        ≡ count
            (λ r.
              has_name other r
              && (if has_name key r
                  then r.is_active && ltb now (utc_midnight later)
                  else account_available later r))
            rows
  unfolding account_available has_name note_use note_error
  usable_accounts-mark_used other =
      count-mark_used (has_name other)
        (λ r.
          has_name other r
          && (if has_name key r
              then r.is_active && ltb now (utc_midnight later)
              else account_available later r))
        (λ r h. ground arith) (λ r h. ground arith)
