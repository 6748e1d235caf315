-- ===== src/Budget/Window.antt =====
-- What is left of a pruned history.
use shirita.Prelude.{
  ℕ, zero, suc, ◌+◌, ◌-◌, ◌≤◌, ◌<◌, ◌≡◌, refl, sym, ap, subst, ◌∙◌, ◌⊎◌, inl, inr, true, List, [],
  ◌∷◌, ◌++◌, leb, ◌||◌, length, take, drop, arith, Bool-cases, length-append, take-append-drop,
}
use shirita.Model.{ChatMessage}
use shirita.Budget.{Counter, tok, total, lead, flags, count_false, pick, but_last, trim_history}

-- Once the sum is within the window, the rest is kept.
flags-within :
    (counter : Counter) (window running : ℕ) (ms : List ChatMessage)
    → leb running window ≡ true
    → (pick ms (flags counter window running ms) ≡ ms)
      × (count_false (flags counter window running ms) ≡ 0)
unfolding flags
flags-within counter window running [] h = (refl, refl)
flags-within counter window running (m ∷ ms) h =
    let (p, c) = flags-within counter window running ms h in rw h (ap (λ l. m ∷ l) p, c)

-- What the loop over the middle segment leaves: its first `n` messages are gone and the others are
-- there. The sum of what is gone was needed: without the last of it the sum is over the window.
record Pruned (counter : Counter) (window running : ℕ) (ms : List ChatMessage) (n : ℕ)
    (kept : List ChatMessage) : Type 0 where
  within : n ≤ length ms
  rest : kept ≡ drop n ms
  fits : (n ≡ length ms) ⊎ (running ≤ window + total counter (take n ms))
  needed : (k : ℕ) → k < n → window + total counter (take k ms) < running

needed_more :
    (counter : Counter) (window running : ℕ) (m : ChatMessage) (ms : List ChatMessage)
    → window < running
    → (n : ℕ) → ((k : ℕ) → k < n → window + total counter (take k ms) < running - tok counter m)
    → (k : ℕ) → k < suc n
    → window + total counter (take k (m ∷ ms)) < running
needed_more counter window running m ms h n f zero l = omega (arith, h)
needed_more counter window running m ms h n f (suc k) l = omega (arith, f k (omega (arith, l)))

flags-Pruned :
    (counter : Counter) (window running : ℕ) (ms : List ChatMessage)
    → total counter ms ≤ running
    → Pruned counter window running ms
        (count_false (flags counter window running ms))
        (pick ms (flags counter window running ms))
unfolding flags
flags-Pruned counter window running [] h = record {
  within = omega arith;
  rest = refl;
  fits = inl refl;
  needed = λ k l. absurd (omega (arith, l));
}
flags-Pruned counter window running (m ∷ ms) h = elim (Bool-cases (leb running window)) [
  | inl e ↦
      let (p, c) = flags-within counter window running ms e in
      rw (e, c, p)
        (record {
          within = omega arith;
          rest = refl;
          fits = inr (ground arith);
          needed = λ k l. absurd (omega (arith, l));
        })
  | inr e ↦
      let r = flags-Pruned counter window (running - tok counter m) ms (omega (arith, h)) in
      rw e (record {
        within = omega (arith, r.within);
        rest = r.rest;
        fits = elim r.fits [ inl p ↦ inl (ap suc p) | inr q ↦ inr (omega (arith, q)) ];
        needed = λ k l. needed_more counter window running m ms (ground arith) _ r.needed k l;
      })
]

drop-within :
    (a b : ℕ) (ms : List ChatMessage) → a ≤ b → drop a (take b ms) ++ drop b ms ≡ drop a ms
drop-within zero b ms l = take-append-drop b ms
drop-within (suc a) zero ms l = absurd (omega (arith, l))
drop-within (suc a) (suc b) [] l = refl
drop-within (suc a) (suc b) (m ∷ ms) l = drop-within a b ms (omega (arith, l))

length-drop : (n : ℕ) (ms : List ChatMessage) → length (drop n ms) ≡ length ms - n
length-drop zero ms = omega arith
length-drop (suc n) [] = omega arith
length-drop (suc n) (m ∷ ms) = omega (arith, length-drop n ms)

length-take_le : (n : ℕ) (ms : List ChatMessage) → length (take n ms) ≤ n
length-take_le zero ms = omega arith
length-take_le (suc n) [] = omega arith
length-take_le (suc n) (m ∷ ms) = omega (arith, length-take_le n ms)

drop-append_le :
    (n : ℕ) (xs ys : List ChatMessage) → n ≤ length xs → drop n xs ++ ys ≡ drop n (xs ++ ys)
drop-append_le zero xs ys l = refl
drop-append_le (suc n) [] ys l = absurd (omega (arith, l))
drop-append_le (suc n) (x ∷ xs) ys l = drop-append_le n xs ys (omega (arith, l))

take-append_le : (n : ℕ) (xs ys : List ChatMessage) → n ≤ length xs → take n (xs ++ ys) ≡ take n xs
take-append_le zero xs ys l = refl
take-append_le (suc n) [] ys l = absurd (omega (arith, l))
take-append_le (suc n) (x ∷ xs) ys l = ap (λ t. x ∷ t) (take-append_le n xs ys (omega (arith, l)))

total-append :
    (counter : Counter) (xs ys : List ChatMessage)
    → total counter (xs ++ ys) ≡ total counter xs + total counter ys
total-append counter [] ys = omega arith
total-append counter (x ∷ xs) ys = omega (arith, total-append counter xs ys)

-- The tokens of a history without the `n` messages behind the first `a`.
total-cut :
    (counter : Counter) (a n : ℕ) (ms : List ChatMessage)
    → total counter (take a ms ++ drop n (drop a ms)) + total counter (take n (drop a ms))
      ≡ total counter ms
total-cut counter a n ms = omega (
  arith,
  total-append counter (take a ms) (drop n (drop a ms)),
  total-append counter (take a ms) (drop a ms),
  total-append counter (take n (drop a ms)) (drop n (drop a ms)),
  ap (total counter) (take-append-drop n (drop a ms)),
  ap (total counter) (take-append-drop a ms),
)

total_part :
    (counter : Counter) (a b : ℕ) (ms : List ChatMessage)
    → total counter (drop a (take b ms)) ≤ total counter ms
total_part counter a b ms = omega (
  arith,
  total-append counter (take a (take b ms)) (drop a (take b ms)),
  ap (total counter) (take-append-drop a (take b ms)),
  total-append counter (take b ms) (drop b ms),
  ap (total counter) (take-append-drop b ms),
)

lead_le : (ms : List ChatMessage) → lead ms ≤ 1
lead_le [] = omega arith
lead_le (m ∷ ms) = ground arith

-- A pruned history: `dropped` messages behind the leading system message are gone.
pub record Trimmed (messages : List ChatMessage) (window : ℕ) (counter : Counter)
    (out : List ChatMessage) (dropped : ℕ) : Type 0 where
  pub shape : out ≡ take (lead messages) messages ++ drop dropped (drop (lead messages) messages)
  pub keeps_last : (dropped ≡ 0) ⊎ (lead messages + dropped < length messages)
  pub fits : (total counter out ≤ window) ⊎ (length out ≤ 2)
  pub needed :
      (k : ℕ)
      → k < dropped
      → window
        < total counter (take (lead messages) messages ++ drop k (drop (lead messages) messages))

module _ (messages : List ChatMessage) (window : ℕ) (counter : Counter) where
  abbrev whole :
      (total counter messages ≤ window) ⊎ (length messages ≤ 2)
      → Trimmed messages window counter messages 0
  whole f = record {
    shape = sym (take-append-drop (lead messages) messages);
    keeps_last = inl refl;
    fits = f;
    needed = λ k l. absurd (omega (arith, l));
  }

  abbrev middle : List ChatMessage
  middle = drop (lead messages) (but_last messages)

  abbrev tail : List ChatMessage
  tail = drop (length messages - 1) messages

  pruned-Trimmed :
      (n : ℕ) (kept : List ChatMessage)
      → 2 < length messages
      → Pruned counter window (total counter messages) middle n kept
      → Trimmed messages window counter (take (lead messages) messages ++ (kept ++ tail)) n
  pruned-Trimmed n kept big p =
      let start = lead messages in
      let joined : middle ++ tail ≡ drop start messages =
        drop-within start (length messages - 1) messages (omega (arith, big, lead_le messages)) in
      let back : kept ++ tail ≡ drop n (drop start messages) =
        ap (λ k. k ++ tail) p.rest ∙ (drop-append_le n middle tail p.within ∙ ap (drop n) joined) in
      let same : (k : ℕ) → k ≤ length middle → take k (drop start messages) ≡ take k middle =
        λ k l. ap (take k) (sym joined) ∙ take-append_le k middle tail l in
      let size : length middle + 1 ≡ length (drop start messages) = omega (
        arith,
        big,
        ap length joined,
        length-append middle tail,
        length-drop (length messages - 1) messages,
      ) in
      let cut : (k : ℕ)
          → k ≤ length middle
          → total counter (take start messages ++ drop k (drop start messages))
              + total counter (take k middle)
            ≡ total counter messages =
        λ k l.
          subst
            (λ t.
              total counter (take start messages ++ drop k (drop start messages)) + total counter t
              ≡ total counter messages)
            (same k l) (total-cut counter start k messages) in
      record {
        shape = ap (λ t. take start messages ++ t) back;
        keeps_last = inr (omega (arith, big, size, p.within, length-drop start messages));
        fits = elim p.fits [
          | inl q ↦ inr (
              omega (
                arith,
                q,
                p.within,
                size,
                lead_le messages,
                length-take_le start messages,
                length-append (take start messages) (kept ++ tail),
                ap length back,
                length-drop n (drop start messages),
              ))
          | inr q ↦ inl (rw back (omega (arith, q, cut n p.within)))
        ];
        needed = λ k l.
            let w = p.needed k l in
            let c = cut k (omega (arith, l, p.within)) in omega (arith, w, c);
      }

  -- What `trim_history` returns is the history without some of its oldest messages behind a leading
  -- system message. The last message stays, unless none is dropped at all; the rest is within the
  -- window, or no more than two messages; and one dropped message fewer would be over the window.
  pub trim_history-Trimmed :
      Trimmed messages window counter
        (trim_history messages window counter).0
        (trim_history messages window counter).1
  unfolding trim_history
  trim_history-Trimmed =
      elim (Bool-cases (leb (total counter messages) window || leb (length messages) 2)) [
        | inl e ↦ rw e (whole (ground arith))
        | inr e ↦ rw e (
            pruned-Trimmed _ _ (ground arith) (
              flags-Pruned counter window (total counter messages) middle
                (omega (arith, total_part counter (lead messages) (length messages - 1) messages))))
      ]
