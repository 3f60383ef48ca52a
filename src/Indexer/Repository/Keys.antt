-- ===== src/Indexer/Repository/Keys.antt =====
-- apps/indexer/src/repository.ts: the keys of the generations of credentials, under an update.
use mathlib.Core.List.{Memᴰ}
use xcs.Common.{
  ℕ, ◌≡◌, ◌∙◌, inl, inr, refl, sym, Text, Bool, true, false, List, [], ◌∷◌, Option, none, some,
  text_eq, text_eq_iff, any, and_true, or_false, Bool-cases, Ensures, Ensures-bind, Ensures-guard,
  Ensures-if, ltb,
}
use xcs.Indexer.Fencing.{is_none}
use xcs.Indexer.Mutations.{
  CredentialMutation, CredentialEventType, created_event, accepted_event, deleted_event,
}
use xcs.Indexer.Repository.{GenerationRow}
use xcs.Indexer.Repository.Generations.{
  generation_checks, generation_is, is_live_of, later_created, live_generation, touched,
  update_rows,
}

-- No key of `credential_generations` stands twice.
abbrev pub Keyed : List GenerationRow → Type 0
Keyed [] = Unit
Keyed (g ∷ rest) = (any (generation_is g.profile_id g.generation_id) rest ≡ false) × Keyed rest

same_key :
    (p i : Text) (g : GenerationRow)
    → generation_is p i g ≡ true
    → (g.profile_id ≡ p) × (g.generation_id ≡ i)
same_key p i g h =
    let (a, b) = and_true (text_eq g.profile_id p) _ h in
    ((text_eq_iff _ _).0 a, (text_eq_iff _ _).0 b)

not_among :
    (p i : Text) (g : GenerationRow) (gs : List GenerationRow)
    → Memᴰ g gs
    → generation_is p i g ≡ true
    → any (generation_is p i) gs ≡ false
    → ⊥
not_among p i g [] m mine none_is = elim m [ ]
not_among p i g (x ∷ gs) (Memᴰ.head e) mine none_is =
    let (a, b) = or_false (generation_is p i x) _ none_is in
    let c : generation_is p i x ≡ true = rw (sym e) mine in cc
not_among p i g (x ∷ gs) (Memᴰ.tail m) mine none_is =
    let (a, b) = or_false (generation_is p i x) _ none_is in not_among p i g gs m mine b

among_first :
    (p i : Text) (x h : GenerationRow) (gs : List GenerationRow)
    → any (generation_is x.profile_id x.generation_id) gs ≡ false
    → Memᴰ h gs
    → generation_is p i x ≡ true
    → generation_is p i h ≡ true
    → ⊥
among_first p i x h gs apart m mine its =
    let (a, b) = same_key p i x mine in not_among p i h gs m its (rw (sym a, sym b) apart)

-- A key has one row.
pub one_row :
    (p i : Text) (g h : GenerationRow) (gs : List GenerationRow)
    → Keyed gs
    → Memᴰ g gs
    → Memᴰ h gs
    → generation_is p i g ≡ true
    → generation_is p i h ≡ true
    → g ≡ h
one_row p i g h [] keyed m n mine its = elim m [ ]
one_row p i g h (x ∷ gs) keyed (Memᴰ.head e) (Memᴰ.head f) mine its = cc
one_row p i g h (x ∷ gs) (apart, keyed) (Memᴰ.head e) (Memᴰ.tail m) mine its =
    absurd (among_first p i x h gs apart m (rw (sym e) mine) its)
one_row p i g h (x ∷ gs) (apart, keyed) (Memᴰ.tail m) (Memᴰ.head e) mine its =
    absurd (among_first p i x g gs apart m (rw (sym e) its) mine)
one_row p i g h (x ∷ gs) (apart, keyed) (Memᴰ.tail m) (Memᴰ.tail n) mine its =
    one_row p i g h gs keyed m n mine its

-- The live generation that is found is a row of the profile without a deletion.
abbrev pub Live : Text → List GenerationRow → Option GenerationRow → Type 0
Live p gs none = Unit
Live p gs (some g) = Memᴰ g gs × (g.profile_id ≡ p) × (is_none g.deleted_ledger_index ≡ true)

module _ (p : Text) where
  Live-tail :
      (x : GenerationRow) (gs : List GenerationRow) (o : Option GenerationRow)
      → Live p gs o
      → Live p (x ∷ gs) o
  Live-tail x gs none h = tt
  Live-tail x gs (some g) (m, own, h) = (Memᴰ.tail m, own, h)

  later_Live :
      (x : GenerationRow) (gs : List GenerationRow) (o : Option GenerationRow)
      → x.profile_id ≡ p
      → is_none x.deleted_ledger_index ≡ true
      → Live p gs o
      → Live p (x ∷ gs) (some (later_created x o))
  later_Live x gs none mine live h = (Memᴰ.head refl, mine, live)
  later_Live x gs (some g) mine live (m, own, h) =
      elim (Bool-cases (ltb x.created_ledger_index g.created_ledger_index)) [
        | inl e ↦ rw e (Memᴰ.tail m, own, h)
        | inr e ↦ rw e (Memᴰ.head refl, mine, live)
      ]

  pub live_generation-Live :
      (object : Text) (gs : List GenerationRow) → Live p gs (live_generation p object gs)
  live_generation-Live object [] = tt
  live_generation-Live object (x ∷ gs) = elim (Bool-cases (is_live_of p object x)) [
    | inl e ↦
        let (a, b) = and_true (text_eq x.profile_id p) _ e in
        let (c, d) = and_true (text_eq x.ledger_object_id object) _ b in
        rw e (
          later_Live x gs (live_generation p object gs) ((text_eq_iff _ _).0 a) d
            (live_generation-Live object gs))
    | inr e ↦ rw e (Live-tail x gs (live_generation p object gs) (live_generation-Live object gs))
  ]

-- the keys of rows that stand for rows
abbrev pub SameKeys : List GenerationRow → List GenerationRow → Type 0
SameKeys gs hs = (p i : Text) → any (generation_is p i) hs ≡ any (generation_is p i) gs

touched_key :
    (mutation : CredentialMutation) (index : ℕ) (event : CredentialEventType) (p i : Text)
    (g : GenerationRow)
    → generation_is p i (touched mutation index event g) ≡ generation_is p i g
unfolding touched
touched_key mutation index created_event p i g = refl
touched_key mutation index accepted_event p i g = refl
touched_key mutation index deleted_event p i g = refl

-- What the update of the rows of a key leaves.
pub record Updated (test : GenerationRow → Bool) (gs hs : List GenerationRow) : Type 0 where
  pub keys : SameKeys gs hs
  pub keyed : Keyed gs → Keyed hs
  pub others : (g : GenerationRow) → test g ≡ false → Memᴰ g gs → Memᴰ g hs

touched_profile :
    (mutation : CredentialMutation) (index : ℕ) (event : CredentialEventType) (g : GenerationRow)
    → ((touched mutation index event g).profile_id ≡ g.profile_id)
      × ((touched mutation index event g).generation_id ≡ g.generation_id)
unfolding touched
touched_profile mutation index created_event g = (refl, refl)
touched_profile mutation index accepted_event g = (refl, refl)
touched_profile mutation index deleted_event g = (refl, refl)

module _ (test : GenerationRow → Bool) where
  -- a row in place of a row with the same key
  Updated-cons :
      (g h : GenerationRow) (gs hs : List GenerationRow)
      → ((p i : Text) → generation_is p i h ≡ generation_is p i g)
      → (h.profile_id ≡ g.profile_id)
      → (h.generation_id ≡ g.generation_id)
      → (test g ≡ false → h ≡ g)
      → Updated test gs hs
      → Updated test (g ∷ gs) (h ∷ hs)
  Updated-cons g h gs hs key profile generation same below = record {
    keys = λ p i. rw (key p i, below.keys p i) refl;
    keyed = λ (apart, rest).
        (rw (profile, generation, below.keys g.profile_id g.generation_id) apart, below.keyed rest);
    others = λ x t m. elim m [
      | Memᴰ.head e ↦ Memᴰ.head (e ∙ sym (same (rw e at t)))
      | Memᴰ.tail n ↦ Memᴰ.tail (below.others x t n)
    ];
  }

module _ (mutation : CredentialMutation) (index : ℕ) (event : CredentialEventType)
    (test : GenerationRow → Bool) where
  pub update_rows-Updated :
      (gs : List GenerationRow)
      → Ensures (Updated test gs) (update_rows test (touched mutation index event) gs)
  unfolding update_rows
  update_rows-Updated [] = record { keys = λ p i. refl; keyed = λ h. tt; others = λ g t m. m }
  update_rows-Updated (g ∷ gs) =
      Ensures-bind (Updated test gs) (Updated test (g ∷ gs))
        (update_rows test (touched mutation index event) gs) _ (update_rows-Updated gs)
        λ hs below.
          Ensures-if (Updated test (g ∷ gs)) (test g) _ _
            (λ mine.
              Ensures-guard (Updated test (g ∷ gs))
                (generation_checks (touched mutation index event g)) _ _
                λ passed.
                  let (a, b) = touched_profile mutation index event g in
                  Updated-cons test g (touched mutation index event g) gs hs
                    (λ p i. touched_key mutation index event p i g) a b (λ other. cc) below)
            λ other. Updated-cons test g g gs hs (λ p i. refl) refl refl (λ t. refl) below
