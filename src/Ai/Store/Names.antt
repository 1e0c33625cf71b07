-- ===== src/Ai/Store/Names.antt =====
-- The names of the accounts (app/cloudflare_ai/store.py).
use telegram_auto.Prelude.{
  ℕ, suc, ◌≤◌, ◌<◌, ◌≡◌, refl, sym, ap, ◌∙◌, Bool, true, false, not, ◌||◌, Option, none, some, List,
  [], ◌∷◌, ◌++◌, Text, ◌==◌, nat_eq, text_eq, arith, if◌then◌else◌, length, filter, find?,
  update_first, inl, inr, Bool-cases, All, All-append,
}
use mathlib.Core.Path.{subst}
use telegram_auto.Prelude.Strip.{strip, strip-strip, is_empty}
use telegram_auto.Prelude.Parse.{lower}
use telegram_auto.Prelude.Filters.{
  count, count-append, count-filter-le, count-update_first-le, find?-none, All-of_count-zero,
}
use telegram_auto.Prelude.Ordered.{sort_in, count-sort_in, All-sort_in}
use telegram_auto.Ai.Store.{
  Account, NewAccount, AccountError, all_hex, Added, added, refused, comes_before, list_accounts,
  has_name, get_account, new_row, append_new, add_account, Imported, imported, raised,
  already_exists, name_required, bad_account_id, token_required, upsert_accounts, remove_account,
  activate, set_active, set_priority, note_error, note_use, mark_used,
}

-- No name stands twice, letters compared without their case.
abbrev pub UniqueNames : List Account → Type 0
UniqueNames rows = (key : Text) → count (has_name key) rows ≤ 1

-- the key by which an account is looked for
abbrev pub key_of : Text → Text
key_of name = lower (strip name)

pub filter_all : (rows : List Account) → filter (λ r. true || r.is_active) rows ≡ rows
unfolding filter
filter_all [] = refl
filter_all (r ∷ rows) = ap (λ rs. r ∷ rs) (filter_all rows)

pub count-list_accounts :
    (t : Account → Bool) (rows : List Account) → count t (list_accounts true rows) ≡ count t rows
unfolding list_accounts
count-list_accounts t rows =
    count-sort_in comes_before t (filter (λ r. true || r.is_active) rows)
    ∙ ap (count t) (filter_all rows)

get_account-none :
    (name : Text) (rows : List Account)
    → get_account name rows ≡ none
    → count (has_name (key_of name)) rows ≡ 0
unfolding get_account
get_account-none name rows h =
    sym (count-list_accounts (has_name (key_of name)) rows)
    ∙ find?-none (has_name (key_of name)) (list_accounts true rows) h

UniqueNames-append :
    (rows : List Account) (row : Account)
    → UniqueNames rows
    → count (has_name (lower row.name)) rows ≡ 0
    → UniqueNames (rows ++ row ∷ [])
unfolding count has_name
UniqueNames-append rows row u h key = elim (Bool-cases (lower row.name == key)) [
  | inl same ↦ ground (arith, count-append (has_name key) rows (row ∷ []), same, h)
  | inr other ↦ ground (arith, count-append (has_name key) rows (row ∷ []), u key, other)
]

-- the rows after a call of `add_account`, which leaves them as they are when it refuses
abbrev pub rows_after : Added → List Account → List Account
rows_after (added row rows') rows = rows'
rows_after (refused e) rows = rows

abbrev pub imported_rows : Imported → List Account
imported_rows (imported n rows) = rows
imported_rows (raised e rows) = rows

append_new-UniqueNames :
    (a : NewAccount) (id : Text) (now : ℕ) (rows : List Account) (o : Option Account)
    → get_account (strip a.name) rows ≡ o
    → UniqueNames rows
    → UniqueNames (rows_after (append_new o a id now rows) rows)
unfolding append_new new_row
append_new-UniqueNames a id now rows (some r) h u = u
append_new-UniqueNames a id now rows none h u = UniqueNames-append rows (new_row a id now rows) u (
    ap (λ name. count (has_name (lower name)) rows) (sym (strip-strip a.name))
    ∙ get_account-none (strip a.name) rows h)

either_refused :
    (P : Added → Type 0) (b : Bool) (e : AccountError) (x : Added)
    → P (refused e)
    → P x
    → P (if b then refused e else x)
either_refused P true e x h k = h
either_refused P false e x h k = k

-- What holds of every refusal and of the row that is appended holds of the answer.
add_account_either :
    (P : Added → Type 0) (a : NewAccount) (id : Text) (now : ℕ) (rows : List Account)
    → ((e : AccountError) → P (refused e))
    → P (append_new (get_account (strip a.name) rows) a id now rows)
    → P (add_account a id now rows)
unfolding add_account
add_account_either P a id now rows h k =
    let acc_id = strip a.account_id in
    let appended = append_new (get_account (strip a.name) rows) a id now rows in
    let with_token : Added =
      if is_empty (strip a.api_token) then refused token_required else appended in
    let bad = not (length acc_id == 32) || not (all_hex (lower acc_id)) in
    let with_id : Added = if bad then refused bad_account_id else with_token in
    either_refused P (is_empty (strip a.name)) name_required with_id (h name_required) (
      either_refused P bad bad_account_id with_token (h bad_account_id) (
        either_refused P (is_empty (strip a.api_token)) token_required appended (h token_required)
          k))

add_account-UniqueNames :
    (a : NewAccount) (id : Text) (now : ℕ) (rows : List Account)
    → UniqueNames rows
    → UniqueNames (rows_after (add_account a id now rows) rows)
add_account-UniqueNames a id now rows u =
    add_account_either (λ x. UniqueNames (rows_after x rows)) a id now rows (λ e. u)
      (append_new-UniqueNames a id now rows (get_account (strip a.name) rows) refl u)

find?-only :
    (t : Account → Bool) (x : Account) (xs : List Account)
    → All (λ y. t y ≡ true → y ≡ x) xs
    → 0 < count t xs
    → find? t xs ≡ some x
unfolding find? count
find?-only t x [] h = λ pos. let bad : ⊥ = omega arith in elim bad [ ]
find?-only t x (y ∷ xs) h = elim (Bool-cases (t y)) [
  | inl hit ↦ rw hit (λ pos. ap some (h.0 hit))
  | inr miss ↦ rw miss (λ pos. find?-only t x xs h.1 pos)
]

never-only :
    (t : Account → Bool) (x : Account) (xs : List Account)
    → All (λ y. t y ≡ false) xs
    → All (λ y. t y ≡ true → y ≡ x) xs
never-only t x [] h = tt
never-only t x (y ∷ xs) h = (λ hit. cc, never-only t x xs h.1)

has_new :
    (a : NewAccount) (id : Text) (now : ℕ) (rows : List Account)
    → 0 < count (has_name (key_of a.name)) (list_accounts true (rows ++ new_row a id now rows ∷ []))
unfolding has_name new_row count
has_new a id now rows =
    let row = new_row a id now rows in
    let t = has_name (key_of a.name) in
    ground (arith, count-list_accounts t (rows ++ row ∷ []), count-append t rows (row ∷ []))

-- the row that was added is the one that its name finds
abbrev pub Found : NewAccount → Added → Type 0
Found a (added row rows) = get_account a.name rows ≡ some row
Found a (refused e) = Unit

append_new-Found :
    (a : NewAccount) (id : Text) (now : ℕ) (rows : List Account) (o : Option Account)
    → get_account (strip a.name) rows ≡ o
    → Found a (append_new o a id now rows)
unfolding append_new get_account list_accounts
append_new-Found a id now rows (some r) h = tt
append_new-Found a id now rows none h =
    let key = key_of a.name in
    let row = new_row a id now rows in
    let fresh =
      ap (λ name. count (has_name (lower name)) rows) (sym (strip-strip a.name))
      ∙ get_account-none (strip a.name) rows h in
    let all =
      All-append (λ y. has_name key y ≡ true → y ≡ row) rows (row ∷ [])
        (never-only (has_name key) row rows (All-of_count-zero (has_name key) rows fresh))
        (λ _. refl, tt) in
    let sorted_all =
      subst (λ xs. All (λ y. has_name key y ≡ true → y ≡ row) (sort_in comes_before xs))
        (sym (filter_all (rows ++ row ∷ [])))
        (All-sort_in comes_before (λ y. has_name key y ≡ true → y ≡ row) (rows ++ row ∷ []) all) in
    find?-only (has_name key) row (list_accounts true (rows ++ row ∷ [])) sorted_all
      (has_new a id now rows)

-- After `add_account` has appended a row, its name finds that row, whatever the white space around
-- it.
pub get_account-add_account :
    (a : NewAccount) (id : Text) (now : ℕ) (rows : List Account)
    → Found a (add_account a id now rows)
get_account-add_account a id now rows =
    add_account_either (Found a) a id now rows (λ e. tt)
      (append_new-Found a id now rows (get_account (strip a.name) rows) refl)

upsert_accounts-UniqueNames :
    (seeds : List (NewAccount × Text)) (now n : ℕ) (rows : List Account)
    → UniqueNames rows
    → UniqueNames (imported_rows (upsert_accounts seeds now n rows))
unfolding upsert_accounts
upsert_accounts-UniqueNames [] now n rows u = u
upsert_accounts-UniqueNames ((a, id) ∷ seeds) now n rows u =
    elim (add_account a id now rows)
        as (λ x.
          UniqueNames (rows_after x rows)
          → UniqueNames (
              imported_rows (elim x [
                | added row rows' ↦ upsert_accounts seeds now (suc n) rows'
                | refused already_exists ↦ upsert_accounts seeds now n rows
                | refused name_required ↦ raised name_required rows
                | refused bad_account_id ↦ raised bad_account_id rows
                | refused token_required ↦ raised token_required rows
              ]))) [
                | added row rows' ↦ λ h. upsert_accounts-UniqueNames seeds now (suc n) rows' h
                | refused already_exists ↦ λ h. upsert_accounts-UniqueNames seeds now n rows u
                | refused name_required ↦ λ h. u
                | refused bad_account_id ↦ λ h. u
                | refused token_required ↦ λ h. u
              ]
      (add_account-UniqueNames a id now rows u)

-- How the rows change: the methods of the store.
pub data Change : List Account → List Account → Type 0 where
  adding :
      (a : NewAccount) (id : Text) (now : ℕ) (rows : List Account)
      → Change rows (rows_after (add_account a id now rows) rows)
  importing :
      (seeds : List (NewAccount × Text)) (now : ℕ) (rows : List Account)
      → Change rows (imported_rows (upsert_accounts seeds now 0 rows))
  removing : (name : Text) (rows : List Account) → Change rows (remove_account name rows).1
  switching :
      (name : Text) (active : Bool) (rows : List Account)
      → Change rows (set_active name active rows).1
  ranking :
      (name : Text) (priority : ℕ) (rows : List Account)
      → Change rows (set_priority name priority rows).1
  marking :
      (name error : Text) (exhausted : Bool) (now : ℕ) (rows : List Account)
      → Change rows (mark_used name error exhausted now rows)

pub data Reach : List Account → Type 0 where
  start : Reach []
  next : {xs ys : List Account} → Reach xs → Change xs ys → Reach ys

-- The loop over the rows keeps their names.
renamed-UniqueNames :
    (t : Account → Bool) (f : Account → Account) (rows : List Account)
    → ((r : Account) → (f r).name ≡ r.name)
    → UniqueNames rows
    → UniqueNames (update_first t f rows)
unfolding has_name
renamed-UniqueNames t f rows same u key = omega (
  arith,
  count-update_first-le (has_name key) t f rows
      (λ r h. ap (λ name. lower name == key) (sym (same r)) ∙ h),
  u key,
)

Change-UniqueNames : {xs ys : List Account} → Change xs ys → UniqueNames xs → UniqueNames ys
unfolding remove_account set_active set_priority mark_used activate note_use note_error
Change-UniqueNames (adding a id now rows) u = add_account-UniqueNames a id now rows u
Change-UniqueNames (importing seeds now rows) u = upsert_accounts-UniqueNames seeds now 0 rows u
Change-UniqueNames (removing name rows) u = λ key.
    omega (arith, count-filter-le (has_name key) (λ r. not (has_name (key_of name) r)) rows, u key)
Change-UniqueNames (switching name active rows) u =
    renamed-UniqueNames (has_name (key_of name)) (activate active) rows (λ r. ground arith) u
Change-UniqueNames (ranking name priority rows) u =
    renamed-UniqueNames (has_name (key_of name)) (λ r. record r { priority = priority }) rows
      (λ r. refl) u
Change-UniqueNames (marking name error exhausted now rows) u =
    renamed-UniqueNames (has_name (key_of name)) (λ r. note_use exhausted now (note_error error r))
      rows (λ r. ground arith) u

-- Whatever the calls of the store's methods, one after the other and imports included, no two accounts have the same name,
-- letters compared without their case.
pub Reach-UniqueNames : {rows : List Account} → Reach rows → UniqueNames rows
unfolding count
Reach-UniqueNames start = λ key. omega arith
Reach-UniqueNames (next before change) = Change-UniqueNames change (Reach-UniqueNames before)
