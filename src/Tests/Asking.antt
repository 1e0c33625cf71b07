-- ===== src/Tests/Asking.antt =====
-- The accounts of the model provider and the turns of `chat` among them.
use telegram_auto.Prelude.{
  ℕ, ◌≡◌, refl, true, false, ◌&&◌, ◌||◌, none, some, List, [], codes, arith, ◌==◌, nat_eq, text_eq,
  if◌then◌else◌, length, any, find?, filter, contains, Text, update_first, ltb, inl, inr,
  Bool-cases,
}
use telegram_auto.Prelude.Strip.{strip, is_empty, lstrip, is_space}
use telegram_auto.Prelude.Parse.{lower}
use telegram_auto.Prelude.Filters.{count}
use telegram_auto.Prelude.Ordered.{text_le, sort_in}
use telegram_auto.Ai.Store.{
  Account, NewAccount, comes_before, list_accounts, has_name, get_account, all_hex, new_row,
  append_new, add_account, utc_midnight, account_available, usable_accounts, note_error, note_use,
  mark_used,
}
use telegram_auto.Ai.Store.Names.{
  UniqueNames, adding, Reach, start, next, Reach-UniqueNames, key_of, rows_after,
}
use telegram_auto.Ai.Store.Quota.{usable_accounts-mark_used}
use telegram_auto.Ai.Provider.{
  Reply, judge, judge_body, judge_error, extract_content, extract_error, spoken, should_rotate,
  answered, quota_exhausted, Provider, Chat, chat_from, start_index, chat, current_account,
}
use telegram_auto.Ai.Provider.Rotation.{Ends, chat-Ends, is_rotation}
use telegram_auto.Ai.Provider.Answers.{Willing, chat-is_answered, is_answered, is_answer}

program : Unit {0}
unfolding any filter text_eq nat_eq find? update_first count contains strip is_empty lower lstrip
    is_space list_accounts comes_before has_name get_account all_hex new_row append_new add_account
    utc_midnight account_available usable_accounts note_error note_use mark_used text_le sort_in
    judge judge_body judge_error extract_content extract_error spoken should_rotate chat chat_from
    start_index current_account
program = tt

abbrev hex : Text
hex = codes "0123456789abcdef0123456789abcdef"

abbrev first_account : NewAccount
first_account = record {
  name = codes " Main ";
  account_id = hex;
  api_token = codes "t1";
  priority = none;
  is_active = true;
}

abbrev second_account : NewAccount
second_account = record first_account { name = codes "spare"; api_token = codes "t2" }

abbrev one_row : List Account
one_row = rows_after (add_account first_account (codes "i1") 100 []) []

abbrev two_rows : List Account
two_rows = rows_after (add_account second_account (codes "i2") 100 one_row) one_row

two_rows-Reach : Reach two_rows
two_rows-Reach =
    next (next start (adding first_account (codes "i1") 100 []))
      (adding second_account (codes "i2") 100 one_row)

length-two_rows : length two_rows ≡ 2
unfolding program
length-two_rows = refl

Reach-UniqueNames_example : UniqueNames two_rows
Reach-UniqueNames_example = Reach-UniqueNames two_rows-Reach

-- the first account is out of its quota at noon of the second day
usable_accounts-mark_used_example :
    count
      (has_name (codes "main"))
      (usable_accounts 130_000 (mark_used (codes "main") (codes "quota") true 129_600 two_rows))
    ≡ count
        (λ r.
          has_name (codes "main") r
          && (if has_name (key_of (codes "main")) r
              then r.is_active && ltb 129_600 (utc_midnight 130_000)
              else account_available 130_000 r))
        two_rows
usable_accounts-mark_used_example =
    usable_accounts-mark_used (codes "main") (codes "quota") 129_600 130_000 two_rows
      (Reach-UniqueNames two_rows-Reach) (codes "main")

abbrev refusal : Reply
refusal = record { status = 429; body = none; raw = codes "too many" }

abbrev result : Reply
result = record {
  status = 200;
  body = some (record {
    has_result = true;
    success = some true;
    error_message = none;
    shown = codes "{}";
    message =
        some
          (record { content = some (codes " hello "); reasoning_content = none; reasoning = none });
  });
  raw = codes "{}";
}

abbrev lost : Reply
lost = record { status = 0; body = none; raw = codes "timed out" }

-- the first account is out of its quota, the second answers
abbrev rotating : Chat
rotating = record {
  with_format = false;
  clock = λ n. 129_600;
  reply = λ n a. if a.name == codes "spare" then result else refusal;
}

abbrev provider : Provider
provider = record { current_idx = 0; rows = two_rows }

chat-rotating : (chat rotating 129_600 provider).0 ≡ answered (codes "hello") (codes "spare")
unfolding program
chat-rotating = refl

-- the index that is left points past the one account that is still usable
current_account-rotating : current_account 129_600 (chat rotating 129_600 provider).1 ≡ none
unfolding program
current_account-rotating = refl

-- the first account is out of its quota, the second is not reached
abbrev half_lost : Chat
half_lost = record rotating { reply = λ n a. if a.name == codes "spare" then lost else refusal }

chat-half_lost : (chat half_lost 129_600 provider).0 ≡ quota_exhausted
unfolding program
chat-half_lost = refl

chat-Ends_example :
    Ends rotating (usable_accounts 129_600 provider.rows) (chat rotating 129_600 provider).0
chat-Ends_example = chat-Ends rotating 129_600 provider

spare-Willing : Willing rotating (usable_accounts 129_600 provider.rows)
unfolding program
spare-Willing = record {
  index = 1;
  account = new_row second_account (codes "i2") 100 one_row;
  stands = refl;
  below = omega arith;
  answering = λ n. refl;
}

rotating_mild :
    (n : ℕ) (a : Account)
    → is_rotation (judge false (rotating.reply n a)) || is_answer (judge false (rotating.reply n a))
      ≡ true
unfolding program
rotating_mild n a = elim (Bool-cases (a.name == codes "spare")) [
  | inl yes_ ↦ rw yes_ refl
  | inr no_ ↦ rw no_ refl
]

chat-is_answered_example : is_answered (chat rotating 129_600 provider).0 ≡ true
chat-is_answered_example = chat-is_answered rotating 129_600 provider spare-Willing rotating_mild
