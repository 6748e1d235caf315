-- ===== src/Tools/Math/Fuel.antt =====
-- The parser of an expression never runs out of fuel.
use shirita.Prelude.{
  ℕ, zero, suc, ◌+◌, ◌*◌, ◌≤◌, ◌<◌, ◌≡◌, ◌≢◌, refl, Option, none, some, Bool, true, false, [], ◌∷◌,
  arith, length, if◌then◌else◌, ◌==◌,
}
use shirita.Text.{Text}
use shirita.Tools.Math.{
  Floats, Goal, expr, term, power, unary, atom, expr_rest, term_rest, power_rest, Parse, no_value,
  out_of_fuel, value, then_parse, number_at, close, parse, ws, eat, digits, math_fuel,
}

ws-length : (s : Text) → length (ws s) ≤ length s
unfolding ws
ws-length [] = omega arith
ws-length (c ∷ s) = ground (arith, ws-length s)

eat-length : (c : ℕ) (s rest : Text) → eat c s ≡ some rest → length rest < length s
unfolding eat
eat-length c s rest h = go (ws s) (ws-length s) h
  where
    go :
        (t : Text)
        → length t ≤ length s
        → (elim t as (λ _. Option Text) [ [] ↦ none | d ∷ r ↦ if d == c then some r else none ])
          ≡ some rest
        → length rest < length s
    go [] l e = absurd (ground arith)
    go (d ∷ r) l e = ground arith

digits-length : (s : Text) → length (digits s).1 ≤ length s
unfolding digits
digits-length [] = omega arith
digits-length (c ∷ s) = ground (arith, digits-length s)

module _ (fl : Floats) where
  -- A parse that has not run out of fuel, and leaves at most `most` characters.
  Fine : ℕ → Parse fl → Type 0
  Fine most no_value = Unit
  Fine most out_of_fuel = ⊥
  Fine most (value v rest) = length rest ≤ most

  -- How many steps a goal takes before it takes a character.
  abbrev rank : Goal fl → ℕ
  rank expr = 4
  rank term = 3
  rank power = 2
  rank unary = 1
  rank _ = 0

  Fine-more : (n m : ℕ) (r : Parse fl) → n ≤ m → Fine n r → Fine m r
  unfolding Fine
  Fine-more n m no_value l f = tt
  Fine-more n m out_of_fuel l f = f
  Fine-more n m (value v rest) l f = omega (arith, l, f)

  then_parse-Fine :
      (n : ℕ) (r : Parse fl) (k : fl.F → Text → Parse fl)
      → Fine n r
      → ((v : fl.F) (rest : Text) → length rest ≤ n → Fine n (k v rest))
      → Fine n (then_parse fl r k)
  unfolding Fine
  then_parse-Fine n no_value k f g = tt
  then_parse-Fine n out_of_fuel k f g = f
  then_parse-Fine n (value v rest) k f g = g v rest f

  -- What may follow a test of the next character.
  eat-Fine :
      (n c : ℕ) (s : Text) (k : Text → Parse fl) (d : Parse fl)
      → ((rest : Text) → length rest < length s → Fine n (k rest))
      → Fine n d
      → Fine n (elim (eat c s) as (λ _. Parse fl) [ some rest ↦ k rest | none ↦ d ])
  eat-Fine n c s k d f g = go (eat c s) (λ rest e. eat-length c s rest e)
    where
      go :
          (o : Option Text)
          → ((rest : Text) → o ≡ some rest → length rest < length s)
          → Fine n (elim o as (λ _. Parse fl) [ some rest ↦ k rest | none ↦ d ])
      go none h = g
      go (some rest) h = f rest (h rest refl)

  value-Fine : (n : ℕ) (v : fl.F) (s : Text) → length s ≤ n → Fine n (value v s)
  unfolding Fine
  value-Fine n v s l = l

  no_value-Fine : (n : ℕ) → Fine n no_value
  unfolding Fine
  no_value-Fine n = tt

  close-Fine : (n : ℕ) (v : fl.F) (s : Text) → length s ≤ n → Fine n (close fl v s)
  close-Fine n v s l =
      eat-Fine n b')' s (λ rest. value v rest) no_value
        (λ rest k. value-Fine n v rest (omega (arith, k, l))) (no_value-Fine n)

  number_at-Fine : (n : ℕ) (p : Text × Text) → length p.1 ≤ n → Fine n (number_at fl p)
  number_at-Fine n ([], rest) l = no_value-Fine n
  number_at-Fine n (d ∷ ds, rest) l = go (fl.parse (d ∷ ds))
    where
      go :
          (o : Option fl.F)
          → Fine n (elim o as (λ _. Parse fl) [ none ↦ no_value | some v ↦ value v rest ])
      go none = no_value-Fine n
      go (some v) = value-Fine n v rest l

  unless-Fine :
      (n : ℕ) (b : Bool) (r : Parse fl)
      → Fine n r
      → Fine n (elim b as (λ _. Parse fl) [ true ↦ no_value | false ↦ r ])
  unless-Fine n true r f = no_value-Fine n
  unless-Fine n false r f = f

  -- With eight steps for each of `n` characters, and the rank of the goal, a parse of a text of at
  -- most `n` characters does not run out.
  abbrev Reads : ℕ → Type 0
  Reads k =
      (n : ℕ) (goal : Goal fl) (depth : ℕ) (s : Text)
      → 8 * n + rank goal < k
      → length s ≤ n
      → Fine n (parse fl k goal depth s)

  -- A goal on the text behind a character, and what follows it there.
  behind :
      (k n : ℕ) (goal : Goal fl) (depth : ℕ) (s rest : Text) (next : fl.F → Text → Parse fl)
      → Reads k
      → 8 * n < suc k
      → length s ≤ n
      → length rest < length s
      → ((v : fl.F) (r : Text) → length r ≤ length rest → Fine (length rest) (next v r))
      → Fine n (then_parse fl (parse fl k goal depth rest) next)
  behind k n goal depth s rest next reads e l m f =
      Fine-more (length rest) n _ (omega (arith, l, m)) (
        then_parse-Fine (length rest) _ next
          (reads (length rest) goal depth rest (rank-lt goal (omega (arith, e, l, m)))
            (omega arith))
          f)
    where
      rank-lt : (g : Goal fl) → 8 * length rest + 8 ≤ k → 8 * length rest + rank g < k
      rank-lt expr h = omega (arith, h)
      rank-lt term h = omega (arith, h)
      rank-lt power h = omega (arith, h)
      rank-lt unary h = omega (arith, h)
      rank-lt atom h = omega (arith, h)
      rank-lt (expr_rest v) h = omega (arith, h)
      rank-lt (term_rest v) h = omega (arith, h)
      rank-lt (power_rest v) h = omega (arith, h)

  -- A loop, once more behind what its last operand has left.
  loop :
      (k n : ℕ) (goal : Goal fl) (depth : ℕ) (s rest r : Text)
      → Reads k
      → 8 * n < suc k
      → length s ≤ n
      → length rest < length s
      → length r ≤ length rest
      → rank goal ≡ 0
      → Fine (length rest) (parse fl k goal depth r)
  loop k n goal depth s rest r reads e l m h z =
      reads (length rest) goal depth r (omega (arith, e, l, m, z)) h

  ws-Fine : (n : ℕ) (v : fl.F) (s : Text) → length s ≤ n → Fine n (value v (ws s))
  ws-Fine n v s l = value-Fine n v (ws s) (omega (arith, ws-length s, l))

  parse-Fine : (k : ℕ) → Reads k
  unfolding parse
  parse-Fine zero n goal depth s e l = absurd (omega (arith, e))
  parse-Fine (suc k) n expr depth s e l =
      then_parse-Fine n _ _ (parse-Fine k n term depth s (omega (arith, e)) l)
        (λ v rest m. parse-Fine k n (expr_rest v) depth rest (omega (arith, e)) m)
  parse-Fine (suc k) n term depth s e l =
      then_parse-Fine n _ _ (parse-Fine k n power depth s (omega (arith, e)) l)
        (λ v rest m. parse-Fine k n (term_rest v) depth rest (omega (arith, e)) m)
  parse-Fine (suc k) n power depth s e l =
      then_parse-Fine n _ _ (parse-Fine k n unary depth s (omega (arith, e)) l)
        (λ v rest m. parse-Fine k n (power_rest v) depth rest (omega (arith, e)) m)
  parse-Fine (suc k) n unary depth s e l =
      let e' : 8 * n < suc k = omega (arith, e) in
      eat-Fine n b'+' s _ _
        (λ rest m.
          Fine-more (length rest) n _ (omega (arith, l, m))
            (parse-Fine k (length rest) unary depth rest (omega (arith, e, l, m)) (omega arith)))
        (eat-Fine n b'-' s _ _
          (λ rest m.
            behind k n unary depth s rest _ (parse-Fine k) e' l m
              (λ x r h. value-Fine (length rest) (fl.neg x) r h))
          (parse-Fine k n atom depth s (omega (arith, e)) l))
  parse-Fine (suc k) n atom depth s e l =
      eat-Fine n b'(' s _ _
        (λ rest m. unless-Fine n _ _ (
          behind k n expr (suc depth) s rest _ (parse-Fine k) (omega (arith, e)) l m
            (λ x r h. close-Fine (length rest) x r h)))
        (number_at-Fine n (digits (ws s)) (omega (arith, digits-length (ws s), ws-length s, l)))
  parse-Fine (suc k) n (expr_rest v) depth s e l =
      let e' : 8 * n < suc k = omega (arith, e) in
      eat-Fine n b'+' s _ _
        (λ rest m.
          behind k n term depth s rest _ (parse-Fine k) e' l m (λ x r h.
            loop k n (expr_rest (fl.add v x)) depth s rest r (parse-Fine k) e' l m h refl))
        (eat-Fine n b'-' s _ _
          (λ rest m. behind k n term depth s rest _ (parse-Fine k) e' l m (λ x r h.
            loop k n (expr_rest (fl.sub v x)) depth s rest r (parse-Fine k) e' l m h refl))
          (ws-Fine n v s l))
  parse-Fine (suc k) n (term_rest v) depth s e l =
      let e' : 8 * n < suc k = omega (arith, e) in
      eat-Fine n b'*' s _ _
        (λ rest m.
          behind k n power depth s rest _ (parse-Fine k) e' l m (λ x r h.
            loop k n (term_rest (fl.mul v x)) depth s rest r (parse-Fine k) e' l m h refl))
        (eat-Fine n b'/' s _ _
          (λ rest m. behind k n power depth s rest _ (parse-Fine k) e' l m (λ x r h.
            unless-Fine (length rest) (fl.is_zero x) _
              (loop k n (term_rest (fl.div v x)) depth s rest r (parse-Fine k) e' l m h refl)))
          (eat-Fine n b'%' s _ _
            (λ rest m. behind k n power depth s rest _ (parse-Fine k) e' l m (λ x r h.
              unless-Fine (length rest) (fl.is_zero x) _
                (loop k n (term_rest (fl.rem v x)) depth s rest r (parse-Fine k) e' l m h refl)))
            (ws-Fine n v s l)))
  parse-Fine (suc k) n (power_rest v) depth s e l =
      eat-Fine n b'^' s _ _
        (λ rest m.
          behind k n power depth s rest _ (parse-Fine k) (omega (arith, e)) l m
            (λ x r h. value-Fine (length rest) (fl.powf v x) r h))
        (ws-Fine n v s l)

  Fine-fuel : (n : ℕ) (r : Parse fl) → Fine n r → r ≢ out_of_fuel
  unfolding Fine
  Fine-fuel n no_value f e = cc
  Fine-fuel n out_of_fuel f e = f
  Fine-fuel n (value v s) f e = cc

  -- The fuel that `eval_math` gives its parser is enough for every text.
  pub parse-math_fuel : (s : Text) → parse fl (math_fuel fl s) expr 0 s ≢ out_of_fuel
  parse-math_fuel s =
      Fine-fuel (length s) _
        (parse-Fine (math_fuel fl s) (length s) expr 0 s (omega arith) (omega arith))
