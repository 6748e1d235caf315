-- ===== src/Assembly/Activation/Offers.antt =====
-- What the scan of the chat in `activate` of shirita-core/src/assembly.rs keeps: a predicate that holds
-- of every active id goes on holding, if it holds of the ids whose keys hit.
use shirita.Prelude.{
  ℕ, zero, suc, ◌-◌, ◌≡◌, sym, subst, List, [], ◌∷◌, ◌==◌, ==_iff, All, All-append, Bool-cases, inl,
  inr, take, drop, length, take-append-drop, arith,
}
use shirita.Text.{Text}
use shirita.Tools.{contains}
use shirita.Keyword.{Automaton, build, scan}
use shirita.Keyword.Laws.{Lawful, Offers, scan-All}
use shirita.Assembly.Activation.{
  insert_active, insert_actives, Groups, push_group, window, scan_groups,
}
use shirita.Assembly.Activation.Reasons.{Latest}

length-drop : (n : ℕ) (ts : List Text) → length (drop n ts) ≡ length ts - n
length-drop zero ts = omega arith
length-drop (suc n) [] = omega arith
length-drop (suc n) (t ∷ ts) = omega (arith, length-drop n ts)

-- The window of a scan is the latest messages.
pub window-Latest : (n : ℕ) (recent : List Text) → Latest n recent (drop (length recent - n) recent)
window-Latest n recent = (
  take (length recent - n) recent,
  sym (take-append-drop (length recent - n) recent),
  ground (arith, length-drop (length recent - n) recent),
)

module _ (ac : Automaton) (P : Text → Type 0) where
  pub insert_active-All :
      (id : Text) (active : List Text) → P id → All P active → All P (insert_active id active)
  unfolding insert_active
  insert_active-All id active p a = elim (Bool-cases (contains active id)) [
    | inl e ↦ rw e a
    | inr e ↦ rw e (p, a)
  ]

  insert_actives-All :
      (ids active : List Text) → All P ids → All P active → All P (insert_actives ids active)
  unfolding insert_actives
  insert_actives-All [] active p a = a
  insert_actives-All (id ∷ ids) active p a =
      insert_actives-All ids (insert_active id active) p.1 (insert_active-All id active p.0 a)

  -- Every id of a group is as wanted if a key of it hits the group's window.
  abbrev pub OfferGroups : List Text → Groups → Type 0
  OfferGroups recent groups = All (λ g. All (Offers ac P (window g.0 recent)) g.1) groups

  pub push_group-Offers :
      (recent : List Text) (depth : ℕ) (k : Text × List Text) (groups : Groups)
      → Offers ac P (window depth recent) k
      → OfferGroups recent groups
      → OfferGroups recent (push_group depth k groups)
  unfolding push_group
  push_group-Offers recent depth k [] o a = ((o, tt), tt)
  push_group-Offers recent depth k ((d, ks) ∷ rest) o a = elim (Bool-cases (d == depth)) [
    | inl e ↦
        let here : Offers ac P (window d recent) k =
          subst (λ n. Offers ac P (window n recent) k) (sym ((==_iff d depth).0 e)) o in
        rw e (All-append (Offers ac P (window d recent)) ks (k ∷ []) a.0 (here, tt), a.1)
    | inr e ↦ rw e (a.0, push_group-Offers recent depth k rest o a.1)
  ]

  pub scan_groups-All :
      Lawful ac
      → (recent : List Text) (groups : Groups) (active : List Text) → OfferGroups recent groups
      → All P active
      → All P (scan_groups ac recent groups active)
  unfolding scan_groups
  scan_groups-All laws recent [] active o a = a
  scan_groups-All laws recent ((depth, ks) ∷ rest) active o a =
      scan_groups-All laws recent rest
        (insert_actives (scan ac (build ac ks) (window depth recent)) active) o.1
        (insert_actives-All _ active (scan-All ac P (window depth recent) laws ks o.0) a)
