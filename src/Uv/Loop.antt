-- ===== src/Uv/Loop.antt =====
-- The loop of libuv: it calls the callbacks of any objects in any order, each with its own state. An
-- object is known by its address, and what is called of it is an `X`.
use mathlib.Core.Logic.{ite, if_pos, if_neg}
use mathlib.Core.Path.{fun_ext}
use native.Mathlib.Decide.{ℕ_discrete}
use libra_core.Common.{
  ℕ, ◌≡◌, refl, sym, ap, ◌∙◌, subst, List, [], ◌∷◌, Outcome, Exec, ◌>>◌, pure, done, throw, fault,
  proceed, All, ◌≢◌,
}

abbrev pub update {ℓ} : {A : Type ℓ} → (ℕ → A) → ℕ → A → ℕ → A
update f i a j = ite (ℕ_discrete i j) a (f j)

pub update-keeps :
    {W : Type 0} (K : W → Type 0) (ws : ℕ → W) (i : ℕ) (w : W)
    → K w
    → ((j : ℕ) → K (ws j))
    → (j : ℕ) → K (update ws i w j)
update-keeps K ws i w here others j = elim (ℕ_discrete i j) [
  | yes same ↦ subst K (sym (if_pos (ℕ_discrete i j) same w (ws j))) here
  | no other ↦ subst K (sym (if_neg (ℕ_discrete i j) other w (ws j))) (others j)
]

-- What is called for one address.
abbrev pub only {κ} : {X : Type κ} → ℕ → List (ℕ × X) → List X
only j [] = []
only j ((i, x) ∷ xs) = ite (ℕ_discrete i j) (x ∷ only j xs) (only j xs)

pub only-All :
    {X : Type 0} (P : X → Type 0) (j : ℕ) (xs : List (ℕ × X))
    → All (λ x. P x.1) xs
    → All P (only j xs)
only-All P j [] all = tt
only-All P j ((i, x) ∷ xs) all = elim (ℕ_discrete i j) [
  | yes same ↦ rw (if_pos (ℕ_discrete i j) same) (all.0, only-All P j xs all.1)
  | no other ↦ rw (if_neg (ℕ_discrete i j) other) (only-All P j xs all.1)
]

module _ {X W : Type 0} (one : X → Exec W (Unit {0})) where
  only-here : (i : ℕ) (x : X) (xs : List (ℕ × X)) → only i ((i, x) ∷ xs) ≡ x ∷ only i xs
  only-here i x xs = if_pos (ℕ_discrete i i) refl _ _

  -- What is called for one address alone.
  unfoldable pub alone : List X → Exec W (Unit {0})
  alone [] = pure tt
  alone (x ∷ xs) = do one x; alone xs

  at_address : ℕ → (ℕ → W) → Outcome (Unit {0}) × W → Outcome (Unit {0}) × (ℕ → W)
  at_address i ws (r, w) = (r, update ws i w)

  -- All of them, as the loop comes to them.
  pub many : List (ℕ × X) → Exec (ℕ → W) (Unit {0})
  unfolding at_address
  many [] = pure tt
  many ((i, x) ∷ xs) = (λ (ws : ℕ → W). at_address i ws (one x (ws i))) >> many xs

  -- What a call leaves at every address, for what comes after it there.
  alone-only :
      (i j : ℕ) (x : X) (xs : List (ℕ × X)) (ws : ℕ → W) (w : W)
      → one x (ws i) ≡ (done tt, w)
      → alone (only j ((i, x) ∷ xs)) (ws j) ≡ alone (only j xs) (update ws i w j)
  unfolding alone
  alone-only i j x xs ws w run = elim (ℕ_discrete i j) [
    | yes same ↦
        subst (λ k. alone (only k ((i, x) ∷ xs)) (ws k) ≡ alone (only k xs) (update ws i w k)) same
          here
    | no other ↦ rw (if_neg (ℕ_discrete i j) other, if_neg (ℕ_discrete i j) other) refl
  ]
    where
      here : alone (only i ((i, x) ∷ xs)) (ws i) ≡ alone (only i xs) (update ws i w i)
      here =
          ap (λ l. alone l (ws i)) (only-here i x xs)
          ∙ ap (proceed (λ _. alone (only i xs))) run
          ∙ ap (alone (only i xs)) (sym (if_pos (ℕ_discrete i i) refl w (ws i)))

  returned :
      (i : ℕ) (x : X) (xs : List (ℕ × X)) (ws : ℕ → W)
      → (alone (only i ((i, x) ∷ xs)) (ws i)).0 ≡ done tt
      → (w : W) × (one x (ws i) ≡ (done tt, w))
  unfolding alone
  returned i x xs ws h =
      split (one x (ws i)) (subst (λ l. (alone l (ws i)).0 ≡ done tt) (only-here i x xs) h)
    where
      split :
          (o : Outcome (Unit {0}) × W)
          → (proceed (λ _. alone (only i xs)) o).0 ≡ done tt
          → (w : W) × (o ≡ (done tt, w))
      split (done a, w) k = (w, refl)
      split (throw y, w) k = cc
      split (fault, w) k = cc

  -- Where no address has trouble by itself, none has in any order.
  pub many-alone :
      (xs : List (ℕ × X)) (ws : ℕ → W)
      → ((j : ℕ) → (alone (only j xs) (ws j)).0 ≡ done tt)
      → many xs ws ≡ (done tt, λ j. (alone (only j xs) (ws j)).1)
  unfolding many alone at_address
  many-alone [] ws h = refl
  many-alone ((i, x) ∷ xs) ws h =
      let (w, run) = returned i x xs ws (h i) in
      rw run (
        many-alone xs (update ws i w)
          (λ j. subst (λ o. o.0 ≡ done tt) (alone-only i j x xs ws w run) (h j))
        ∙ ap (λ g. (done tt, g)) (fun_ext λ j. ap (λ o. o.1) (sym (alone-only i j x xs ws w run))))

  -- A condition on each call and the state that it finds.
  abbrev pub Along : (X → W → Type 0) → List (ℕ × X) → (ℕ → W) → Type 0
  Along P [] ws = Unit
  Along P ((i, x) ∷ xs) ws = P x (ws i) × Along P xs (update ws i (one x (ws i)).1)

  -- What each call keeps at its own address is kept at all of them, also where a call throws.
  pub many-keeps :
      (P : X → W → Type 0) (Holds Stays : W → Type 0)
      → ((w : W) → Holds w → Stays w)
      → ((x : X) (w : W)
          → P x w
          → Holds w
          → ((one x w).0 ≢ fault) × Stays (one x w).1 × ((one x w).0 ≡ done tt → Holds (one x w).1))
      → (xs : List (ℕ × X)) (ws : ℕ → W) → Along P xs ws
      → ((j : ℕ) → Holds (ws j))
      → ((many xs ws).0 ≢ fault) × ((j : ℕ) → Stays ((many xs ws).1 j))
  unfolding many at_address
  many-keeps P Holds Stays weaker keeps [] ws all each = ((λ e. cc), λ j. weaker (ws j) (each j))
  many-keeps P Holds Stays weaker keeps ((i, x) ∷ xs) ws all each =
      after (one x (ws i)) (keeps x (ws i) all.0 (each i)) (λ strong.
        many-keeps P Holds Stays weaker keeps xs (update ws i (one x (ws i)).1) all.1
          (update-keeps Holds ws i (one x (ws i)).1 strong each))
    where
      after :
          (o : Outcome (Unit {0}) × W)
          → (o.0 ≢ fault) × Stays o.1 × (o.0 ≡ done tt → Holds o.1)
          → (Holds o.1
              → ((many xs (update ws i o.1)).0 ≢ fault)
                × ((j : ℕ) → Stays ((many xs (update ws i o.1)).1 j)))
          → ((proceed (λ _. many xs) (at_address i ws o)).0 ≢ fault)
            × ((j : ℕ) → Stays ((proceed (λ _. many xs) (at_address i ws o)).1 j))
      after (done a, w) (defined, weak, strong) rest = rest (strong refl)
      after (throw e, w) (defined, weak, strong) rest =
          ((λ h. cc), update-keeps Stays ws i w weak (λ j. weaker (ws j) (each j)))
      after (fault, w) (defined, weak, strong) rest = absurd (defined refl)
