-- ===== src/Ai/Store.antt =====
-- app/cloudflare_ai/store.py, `CloudflareAIStore`: the rows under "accounts" of cloudflare_ai.json.
-- Times are seconds in UTC. A row's priority is a natural number. The new id and the time are
-- arguments; the counter of neurons, which are floats, and the configuration are left out.

pub mod Names
pub mod Quota
use telegram_auto.Prelude.{
  ℕ, suc, ◌+◌, ◌-◌, ◌%◌, ◌≤◌, Bool, true, false, not, ◌&&◌, ◌||◌, Option, none, some, List, [], ◌∷◌,
  ◌++◌, Text, codes, leb, ltb, ◌==◌, nat_eq, text_eq, if◌then◌else◌, length, filter, find?, any,
  contains, update_first, take,
}
use telegram_auto.Prelude.Strip.{strip, is_empty}
use telegram_auto.Prelude.Parse.{lower}
use telegram_auto.Prelude.Ordered.{text_le, sort_in}

pub record Account : Type 0 where
  pub id : Text
  pub name : Text
  pub account_id : Text
  pub api_token : Text
  pub is_active : Bool
  pub priority : ℕ
  pub usage_count : ℕ
  pub last_used_at : Option ℕ
  pub last_error : Option Text
  pub quota_exhausted_at : Option ℕ
  pub created_at : ℕ

-- the keyword arguments of `add_account`
pub record NewAccount : Type 0 where
  pub name : Text
  pub account_id : Text
  pub api_token : Text
  pub priority : Option ℕ
  pub is_active : Bool

-- the errors of `add_account`
pub data AccountError : Type 0 where
  name_required bad_account_id token_required already_exists : AccountError

pub data Added : Type 0 where
  added : Account → List Account → Added
  refused : AccountError → Added

-- the key of the sort in `list_accounts`
unfoldable pub comes_before : Account → Account → Bool
comes_before a b = ltb a.priority b.priority || (a.priority == b.priority && text_le a.name b.name)

unfoldable pub list_accounts : Bool → List Account → List Account
unfolding comes_before
list_accounts include_inactive rows =
    sort_in comes_before (filter (λ r. include_inactive || r.is_active) rows)

-- `str(row.get("name") or "").lower() == key`
unfoldable pub has_name : Text → Account → Bool
has_name key r = lower r.name == key

unfoldable pub get_account : Text → List Account → Option Account
unfolding has_name
get_account name rows = find? (has_name (lower (strip name))) (list_accounts true rows)

-- `all(c in "0123456789abcdef" for c in acc_id.lower())`
unfoldable pub all_hex : Text → Bool
all_hex [] = true
all_hex (c ∷ s) = contains (codes "0123456789abcdef") c && all_hex s

-- the row that `add_account` appends
unfoldable pub new_row : NewAccount → Text → ℕ → List Account → Account
new_row a id now rows = record {
  id = id;
  name = strip a.name;
  account_id = strip a.account_id;
  api_token = strip a.api_token;
  is_active = a.is_active;
  priority = elim a.priority [ none ↦ length rows | some p ↦ p ];
  usage_count = 0;
  last_used_at = none;
  last_error = none;
  quota_exhausted_at = none;
  created_at = now;
}

-- what follows the search for the name
unfoldable pub append_new : Option Account → NewAccount → Text → ℕ → List Account → Added
unfolding new_row
append_new (some existing) a id now rows = refused already_exists
append_new none a id now rows = let row = new_row a id now rows in added row (rows ++ row ∷ [])

-- The search for the name and the append are one step: no other call comes between them, although the
-- source takes the lock for each on its own.
unfoldable pub add_account : NewAccount → Text → ℕ → List Account → Added
unfolding append_new
add_account a id now rows =
    let acc_id = strip a.account_id in
    if is_empty (strip a.name)
    then refused name_required
    else if not (length acc_id == 32) || not (all_hex (lower acc_id))
    then refused bad_account_id
    else if is_empty (strip a.api_token)
    then refused token_required
    else append_new (get_account (strip a.name) rows) a id now rows

-- how an import ends: with the number of rows added, or with an error. Rows added before it stay.
pub data Imported : Type 0 where
  imported : ℕ → List Account → Imported
  raised : AccountError → List Account → Imported

-- the loop of `upsert_accounts`, with the new ids of the rows
unfoldable pub upsert_accounts : List (NewAccount × Text) → ℕ → ℕ → List Account → Imported
upsert_accounts [] now n rows = imported n rows
upsert_accounts ((a, id) ∷ seeds) now n rows = elim (add_account a id now rows) [
  | added row rows' ↦ upsert_accounts seeds now (suc n) rows'
  | refused already_exists ↦ upsert_accounts seeds now n rows
  | refused name_required ↦ raised name_required rows
  | refused bad_account_id ↦ raised bad_account_id rows
  | refused token_required ↦ raised token_required rows
]

-- whether a row was removed, and the rows that stay
unfoldable pub remove_account : Text → List Account → Bool × List Account
unfolding has_name
remove_account name rows =
    let kept = filter (λ r. not (has_name (lower (strip name)) r)) rows in
    (not (length kept == length rows), kept)

unfoldable pub activate : Bool → Account → Account
activate active r =
    if active
    then record r { is_active = true; quota_exhausted_at = none; last_error = none }
    else record r { is_active = false }

-- The answer of these two is whether the name is found.
unfoldable pub set_active : Text → Bool → List Account → Bool × List Account
unfolding has_name activate
set_active name active rows =
    let key = lower (strip name) in
    (any (has_name key) rows, update_first (has_name key) (activate active) rows)

unfoldable pub set_priority : Text → ℕ → List Account → Bool × List Account
unfolding has_name
set_priority name priority rows =
    let key = lower (strip name) in
    (
      any (has_name key) rows,
      update_first (has_name key) (λ r. record r { priority = priority }) rows,
    )

-- `_utc_midnight_today`
unfoldable pub utc_midnight : ℕ → ℕ
utc_midnight now = now - now % 86_400

unfoldable pub account_available : ℕ → Account → Bool
unfolding utc_midnight
account_available now r =
    r.is_active
    && elim r.quota_exhausted_at [ none ↦ true | some at ↦ not (leb (utc_midnight now) at) ]

unfoldable pub usable_accounts : ℕ → List Account → List Account
unfolding account_available list_accounts
usable_accounts now rows = filter (account_available now) (list_accounts true rows)

-- `row["last_error"]`: the error's first 500 characters, if it is not empty
unfoldable pub note_error : Text → Account → Account
note_error error r = record r {
  last_error = if is_empty error then none else some (take 500 error);
}

unfoldable pub note_use : Bool → ℕ → Account → Account
note_use exhausted now r =
    if exhausted
    then record r { quota_exhausted_at = some now }
    else record r { usage_count = r.usage_count + 1; last_used_at = some now }

unfoldable pub mark_used : Text → Text → Bool → ℕ → List Account → List Account
unfolding has_name note_error note_use
mark_used name error exhausted now rows =
    update_first (has_name (lower (strip name))) (λ r. note_use exhausted now (note_error error r))
      rows
