-- ===== src/Server/Assistant/Budget.antt =====
-- How much of the conversation goes into a chat request (service/internal/server/handlers_ai.go).
use aifstudio.Prelude.{
  ℕ, ◌+◌, ◌-◌, ◌≤◌, ◌<◌, ◌≡◌, refl, sym, ap, ◌∙◌, List, [], ◌∷◌, ◌++◌, append_assoc, append-nil,
  ltb, arith, Bool-cases, inl, inr,
}
use mathlib.Core.List.{reverse, reverse-append, reverse-reverse, reverse-cons}
use aifstudio.Text.{Text}
use aifstudio.Store.Rows.{AiTurn}
use aifstudio.Server.Assistant.Chat.{Message, turn_size, take_turns, chat_messages}

abbrev pub user_part : AiTurn → Message
user_part t = record { role = "user"; content = t.user_message }

abbrev pub reply_part : AiTurn → Message
reply_part t = record { role = "assistant"; content = t.assistant_reply }

-- The turns as messages, in their order.
abbrev pub as_messages : List AiTurn → List Message
as_messages [] = []
as_messages (t ∷ ts) = user_part t ∷ reply_part t ∷ as_messages ts

abbrev pub total_size : List AiTurn → ℕ
total_size [] = 0
total_size (t ∷ ts) = turn_size t + total_size ts

-- The first turn of a list does not fit beside `used`.
abbrev pub IsFull : ℕ → ℕ → List AiTurn → Type 0
IsFull budget used [] = Unit
IsFull budget used (t ∷ ts) = budget < used + turn_size t

as_messages-append :
    (ts us : List AiTurn) → as_messages (ts ++ us) ≡ as_messages ts ++ as_messages us
as_messages-append [] us = refl
as_messages-append (t ∷ ts) us =
    ap (λ ms. user_part t ∷ reply_part t ∷ ms) (as_messages-append ts us)

total_size-append : (ts us : List AiTurn) → total_size (ts ++ us) ≡ total_size ts + total_size us
total_size-append [] us = omega arith
total_size-append (t ∷ ts) us = omega (arith, total_size-append ts us)

-- From the last turn back: `kept`, the last one first.
record Taken (budget : ℕ) (ts : List AiTurn) (tail : List Message) : Type 0 where
  kept : List AiTurn
  rest : List AiTurn
  split : ts ≡ kept ++ rest
  shown : take_turns budget ts tail ≡ as_messages (reverse kept) ++ tail
  within : total_size kept ≤ budget
  full : IsFull budget (total_size kept) rest

IsFull-add :
    (budget n used : ℕ) (ts : List AiTurn)
    → n ≤ budget
    → IsFull (budget - n) used ts
    → IsFull budget (n + used) ts
IsFull-add budget n used [] h f = tt
IsFull-add budget n used (t ∷ ts) h f = omega arith

take_turns-Taken : (budget : ℕ) (ts : List AiTurn) (tail : List Message) → Taken budget ts tail
unfolding take_turns
take_turns-Taken budget [] tail = record {
  kept = [];
  rest = [];
  split = refl;
  shown = refl;
  within = omega arith;
  full = tt;
}
take_turns-Taken budget (t ∷ ts) tail = elim (Bool-cases (ltb budget (turn_size t))) [
  | inl big ↦ record {
    kept = [];
    rest = t ∷ ts;
    split = refl;
    shown = rw (take_turns, big) refl;
    within = omega arith;
    full = ground (arith, big);
  }
  | inr small ↦
      let fits : turn_size t ≤ budget = ground (arith, small) in
      let r = take_turns-Taken (budget - turn_size t) ts (user_part t ∷ reply_part t ∷ tail) in
      record {
        kept = t ∷ r.kept;
        rest = r.rest;
        split = ap (λ us. t ∷ us) r.split;
        shown =
            rw (take_turns, small)
              (r.shown
                ∙ sym (append_assoc (as_messages (reverse r.kept)) (as_messages (t ∷ [])) tail)
                ∙ ap (λ ms. ms ++ tail)
                    (sym (as_messages-append (reverse r.kept) (t ∷ []))
                      ∙ ap as_messages (sym (reverse-cons t r.kept))));
        within = omega (arith, r.within, fits);
        full = IsFull-add budget (turn_size t) (total_size r.kept) r.rest fits r.full;
      }
]

total_size-reverse : (ts : List AiTurn) → total_size (reverse ts) ≡ total_size ts
total_size-reverse [] = refl
total_size-reverse (t ∷ ts) =
    ap total_size (reverse-cons t ts)
    ∙ total_size-append (reverse ts) (t ∷ [])
    ∙ omega (arith, total_size-reverse ts)

pub record Window (turns : List AiTurn) (msg : Text) : Type 0 where
  pub older : List AiTurn
  pub kept : List AiTurn
  pub split : turns ≡ older ++ kept
  pub shown :
      chat_messages turns msg ≡ as_messages kept ++ (record { role = "user"; content = msg } ∷ [])
  pub within : total_size kept ≤ 80000
  pub full : IsFull 80000 (total_size kept) (reverse older)

-- The messages of a chat request are those of the latest turns, two for each turn in their order, and
-- the new message. The texts of these turns come to at most 80,000 bytes, and with the turn before them,
-- if there is one, they would come to more.
pub chat_messages-Window : (turns : List AiTurn) (msg : Text) → Window turns msg
unfolding chat_messages
chat_messages-Window turns msg =
    let r = take_turns-Taken 80000 (reverse turns) [] in
    record {
      older = reverse r.rest;
      kept = reverse r.kept;
      split = sym (reverse-reverse turns) ∙ ap reverse r.split ∙ reverse-append r.kept r.rest;
      shown =
          ap (λ ms. ms ++ (record { role = "user"; content = msg } ∷ []))
            (r.shown ∙ append-nil (as_messages (reverse r.kept)));
      within = rw (total_size-reverse r.kept) r.within;
      full = rw (total_size-reverse r.kept, reverse-reverse r.rest) r.full;
    }
