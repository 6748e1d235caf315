-- ===== src/Assembly/Runs.antt =====
-- The messages of a request in shirita-core/src/assembly.rs as the runs of one role.
use shirita.Prelude.{
  Option, none, some, Bool, true, false, List, [], ◌∷◌, ◌++◌, map, ◌≡◌, refl, sym, ap, ◌∙◌, subst,
  All, All-append, append_assoc, append-nil, Bool-cases, inl, inr,
}
use mathlib.Core.List.{map-append}
use shirita.Text.{Text, codes, join}
use shirita.Model.{ChatMessage, Role, user}
use shirita.Assembly.{AssembledPlan}
use shirita.Assembly.Messages.{
  role_eq, before_messages, after_messages, split_last, hold_last, hold_turn, joined, push_merged,
  merge_all, build_chat_messages,
}

abbrev newline : Text
newline = codes "\n"

-- A run as one message: the first one, with the contents of all, a line feed between them.
abbrev pub run_message : ChatMessage → List ChatMessage → ChatMessage
run_message m same = record m { content = join newline (m.content ∷ map (λ x. x.content) same) }

-- The next message, if there is one, has another role.
abbrev pub Changes : Role → List ChatMessage → Type 0
Changes r [] = Unit
Changes r (m ∷ ms) = role_eq r m.role ≡ false

-- Messages cut into their longest runs of one role, each of which becomes one message.
pub data Runs : List ChatMessage → List ChatMessage → Type 0 where
  done : Runs [] []
  run :
      {rest merged : List ChatMessage} (m : ChatMessage) (same : List ChatMessage)
      → All (λ x. role_eq m.role x.role ≡ true) same
      → Changes m.role rest
      → Runs rest merged
      → Runs (m ∷ (same ++ rest)) (run_message m same ∷ merged)

join-snoc :
    (s t : Text) (ss : List Text)
    → join newline (s ∷ (ss ++ t ∷ [])) ≡ join newline (s ∷ ss) ++ (newline ++ t)
unfolding join
join-snoc s t [] = refl
join-snoc s t (u ∷ ss) =
    ap (λ r. s ++ (newline ++ r)) (join-snoc u t ss)
    ∙ sym (append_assoc s (newline ++ join newline (u ∷ ss)) (newline ++ t))

run_message-snoc :
    (m x : ChatMessage) (same : List ChatMessage)
    → run_message m (same ++ x ∷ []) ≡ joined (run_message m same) x
run_message-snoc m x same =
    ap (λ c. record m { content = c })
      (ap (λ cs. join newline (m.content ∷ cs)) (map-append (λ y. y.content) same (x ∷ []))
        ∙ join-snoc m.content x.content (map (λ y. y.content) same))

run_alone : (x : ChatMessage) → Runs (x ∷ []) (x ∷ [])
unfolding join
run_alone x = run x [] tt tt done

-- One more message behind the last run: it goes on with it, or starts a run of its own.
run-snoc :
    (m x : ChatMessage) (same : List ChatMessage)
    → All (λ y. role_eq m.role y.role ≡ true) same
    → Runs (m ∷ (same ++ x ∷ [])) (push_merged (run_message m same ∷ []) x)
unfolding push_merged
run-snoc m x same a = elim (Bool-cases (role_eq m.role x.role)) [
  | inl e ↦
      rw (e, sym (run_message-snoc m x same))
        (subst (λ l. Runs (m ∷ l) (run_message m (same ++ x ∷ []) ∷ []))
          (append-nil (same ++ x ∷ []))
          (run m (same ++ x ∷ [])
            (All-append (λ y. role_eq m.role y.role ≡ true) same (x ∷ []) a (e, tt)) tt done))
  | inr e ↦ rw e (run m same a e (run_alone x))
]

Runs-snoc :
    (xs merged : List ChatMessage) (x : ChatMessage)
    → Runs xs merged
    → Runs (xs ++ x ∷ []) (push_merged merged x)
unfolding push_merged
Runs-snoc xs merged x done = run_alone x
Runs-snoc xs merged x (run m same a c done) =
    subst (λ l. Runs (m ∷ (l ++ x ∷ [])) (push_merged (run_message m same ∷ []) x))
      (sym (append-nil same)) (run-snoc m x same a)
Runs-snoc xs merged x (run m same a c (run {rest = rest} {merged = after} n more b d r)) =
    subst (λ l. Runs (m ∷ l) (run_message m same ∷ push_merged (run_message n more ∷ after) x))
      (sym (append_assoc same (n ∷ (more ++ rest)) (x ∷ [])))
      (run m same a c
        (Runs-snoc (n ∷ (more ++ rest)) (run_message n more ∷ after) x (run n more b d r)))

merge_all-Runs :
    (xs merged ms : List ChatMessage) → Runs xs merged → Runs (xs ++ ms) (merge_all merged ms)
unfolding merge_all
merge_all-Runs xs merged [] r = subst (λ l. Runs l merged) (sym (append-nil xs)) r
merge_all-Runs xs merged (m ∷ ms) r =
    subst (λ l. Runs l (merge_all (push_merged merged m) ms)) (append_assoc xs (m ∷ []) ms)
      (merge_all-Runs (xs ++ m ∷ []) (push_merged merged m) ms (Runs-snoc xs merged m r))

-- The messages of the past and the turn that is held out: the last message, if it is the user's and
-- the history is taken in at all.
pub data Splits : Bool → List ChatMessage → List ChatMessage → List ChatMessage → Type 0 where
  left_out : {history : List ChatMessage} → Splits false history [] []
  held :
      (rest : List ChatMessage) (last : ChatMessage)
      → role_eq last.role user ≡ true
      → Splits true (rest ++ last ∷ []) rest (last ∷ [])
  other_end :
      (rest : List ChatMessage) (last : ChatMessage)
      → role_eq last.role user ≡ false
      → Splits true (rest ++ last ∷ []) (rest ++ last ∷ []) []
  no_history : Splits true [] [] []

Cut : List ChatMessage → Option (List ChatMessage × ChatMessage) → Type 0
Cut history none = history ≡ []
Cut history (some (rest, last)) = history ≡ rest ++ last ∷ []

split_last-Cut : (history : List ChatMessage) → Cut history (split_last history)
unfolding split_last Cut
split_last-Cut [] = refl
split_last-Cut (m ∷ ms) = go (split_last ms) (split_last-Cut ms)
  where
    go :
        (o : Option (List ChatMessage × ChatMessage))
        → Cut ms o
        → Cut (m ∷ ms) (elim o as (λ _. Option (List ChatMessage × ChatMessage)) [
          | none ↦ some ([], m)
          | some (rest, last) ↦ some (m ∷ rest, last)
        ])
    go none e = ap (λ l. m ∷ l) e
    go (some (rest, last)) e = ap (λ l. m ∷ l) e

hold_last-Splits :
    (history : List ChatMessage) (o : Option (List ChatMessage × ChatMessage))
    → Cut history o
    → Splits true history (hold_last history o).0 (hold_last history o).1
unfolding Cut hold_last
hold_last-Splits history none e = subst (λ l. Splits true l l []) (sym e) no_history
hold_last-Splits history (some (rest, last)) e = elim (Bool-cases (role_eq last.role user)) [
  | inl f ↦ rw f (subst (λ l. Splits true l rest (last ∷ [])) (sym e) (held rest last f))
  | inr f ↦ rw f (subst (λ l. Splits true l l []) (sym e) (other_end rest last f))
]

-- The messages of a request are the segments before the history, the history, and the segments after
-- it, as the longest runs of one role, each joined to one message; behind them stands the user's last
-- turn on its own, if the history is taken in and ends with it.
pub build_chat_messages-Runs :
    (plan : AssembledPlan) (history : List ChatMessage) (history_enabled : Bool)
    → (historical turn merged : List ChatMessage) × Splits history_enabled history historical turn
      × Runs (before_messages plan ++ (historical ++ after_messages plan)) merged
      × (build_chat_messages plan history history_enabled ≡ merged ++ turn)
unfolding build_chat_messages hold_turn
build_chat_messages-Runs plan history false =
    ([], [], _, left_out, merge_all-Runs [] [] _ done, refl)
build_chat_messages-Runs plan history true = (
  _,
  _,
  _,
  hold_last-Splits history (split_last history) (split_last-Cut history),
  merge_all-Runs [] [] _ done,
  refl,
)
