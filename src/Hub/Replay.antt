-- ===== src/Hub/Replay.antt =====
-- daemon/pending.go: what a subscriber makes of its snapshot and of the deltas that follow, by key.
use spice_agent.Base.{
  ◌≡◌, refl, sym, ap, subst, ◌∙◌, Bool, true, false, if◌then◌else◌, if_intro, if_congr, if_false,
  List, [], ◌∷◌, ◌++◌, Option, none, some, arith, bytes_eq_iff, bytes_eq_refl,
}
use spice_agent.Hub.Types.{
  Pending, PendingKey, PendingCall, key_of, DeltaKind, opened, closed, Delta,
}
use spice_agent.Hub.Store.{same_key, find_call, delete_call}
use spice_agent.Hub.Observing.{key_ltb, insert_pending, sort_values}

unfoldable pub find_pending : PendingKey → List Pending → Option Pending
find_pending key [] = none
find_pending key (v ∷ vs) =
    let later = find_pending key vs in if same_key (key_of v) key then some v else later

unfoldable pub forget_pending : PendingKey → List Pending → List Pending
forget_pending key [] = []
forget_pending key (v ∷ vs) =
    let later = forget_pending key vs in if same_key (key_of v) key then later else v ∷ later

-- A subscriber's view after a delta, and after a sequence of them.
unfoldable pub replay_kind : DeltaKind → Pending → List Pending → List Pending
unfolding forget_pending
replay_kind opened v vs = v ∷ vs
replay_kind closed v vs = forget_pending (key_of v) vs

unfoldable pub replay_deltas : List Delta → List Pending → List Pending
unfolding replay_kind
replay_deltas [] vs = vs
replay_deltas (d ∷ ds) vs = replay_deltas ds (replay_kind d.kind d.pending vs)

pub replay_deltas-append :
    (ds : List Delta) (d : Delta) (vs : List Pending)
    → replay_deltas (ds ++ d ∷ []) vs ≡ replay_kind d.kind d.pending (replay_deltas ds vs)
unfolding replay_deltas
replay_deltas-append [] d vs = refl
replay_deltas-append (e ∷ ds) d vs = replay_deltas-append ds d (replay_kind e.kind e.pending vs)

abbrev pub value_of : Option PendingCall → Option Pending
value_of none = none
value_of (some c) = some c.value

-- The view shows under every key the pending call of that key, if there is one.
abbrev pub Agrees : List Pending → List (PendingKey × PendingCall) → Type 0
Agrees vs cs = (key : PendingKey) → find_pending key vs ≡ value_of (find_call key cs)

-- Each call stands under the key of its value, and no other call under that key.
abbrev pub IsKeyed : List (PendingKey × PendingCall) → Type 0
IsKeyed [] = Unit {0}
IsKeyed ((k, c) ∷ rest) = (k ≡ key_of c.value) × (find_call k rest ≡ none) × IsKeyed rest

pub same_key_eq : (a b : PendingKey) → same_key a b ≡ true → a ≡ b
same_key_eq a b h =
    let p : a.run_id ≡ b.run_id = (bytes_eq_iff a.run_id b.run_id).0 (ground arith) in
    let q : a.interaction_id ≡ b.interaction_id =
      (bytes_eq_iff a.interaction_id b.interaction_id).0 (ground arith) in
    λ i. record { run_id = p i; interaction_id = q i }

pub same_key_refl : (a : PendingKey) → same_key a a ≡ true
same_key_refl a = ground (arith, bytes_eq_refl a.run_id, bytes_eq_refl a.interaction_id)

-- Keys that are the same as a third are the same.
pub same_key_join :
    (a b key : PendingKey) → same_key a key ≡ true → same_key b key ≡ true → same_key a b ≡ true
same_key_join a b key h k = subst (λ x. same_key a x ≡ true) (sym (same_key_eq b key k)) h

-- The parts of a lookup at the head of a list.
absent_later :
    (key : PendingKey) (d : Pending) (ds : List Pending)
    → find_pending key (d ∷ ds) ≡ none
    → find_pending key ds ≡ none
unfolding find_pending
absent_later key d ds absent = ground arith

insert_later :
    (key : PendingKey) (v d : Pending) (ds : List Pending) (found : Option Pending)
    → found ≡ (if same_key (key_of v) key then some v else find_pending key ds)
    → find_pending (key_of v) (d ∷ ds) ≡ none
    → (if same_key (key_of d) key then some d else found)
      ≡ (if same_key (key_of v) key then some v else find_pending key (d ∷ ds))
unfolding find_pending
insert_later key v d ds found later absent = ground (arith, same_key_join (key_of d) (key_of v) key)

pub if_value :
    (b : Bool) (c : PendingCall) (o : Option Pending) (found : Option PendingCall)
    → o ≡ value_of found
    → (if b then some c.value else o) ≡ value_of (if b then some c else found)
if_value true c o found same = refl
if_value false c o found same = same

agree_head :
    (key k : PendingKey) (c : PendingCall) (o : Option Pending) (found : Option PendingCall)
    → k ≡ key_of c.value
    → o ≡ value_of found
    → (if same_key (key_of c.value) key then some c.value else o)
      ≡ value_of (if same_key k key then some c else found)
agree_head key k c o found own same =
    subst
      (λ x.
        (if same_key x key then some c.value else o)
        ≡ value_of (if same_key k key then some c else found))
      own (if_value (same_key k key) c o found same)

skip_head {ℓ} :
    {A : Type ℓ}
    → (j key k : PendingKey) (a o : Option A) → same_key j key ≡ true
    → (if same_key key k then none else o)
      ≡ (if same_key key k then none else if same_key j k then a else o)
skip_head j key k a o is = if_congr (same_key key k) none _ _ (λ no. sym (
    if_false (same_key j k) a o
      (subst (λ x. same_key x k ≡ false) (sym (same_key_eq j key is)) no)))

keep_head {ℓ} :
    {A : Type ℓ}
    → (j key k : PendingKey) (a o o' : Option A) → same_key j key ≡ false
    → o' ≡ (if same_key key k then none else o)
    → (if same_key j k then a else o')
      ≡ (if same_key key k then none else if same_key j k then a else o)
keep_head j key k a o o' other same = ground (arith, same_key_join j key k)

find-insert_pending :
    (key : PendingKey) (v : Pending) (xs : List Pending)
    → find_pending (key_of v) xs ≡ none
    → find_pending key (insert_pending v xs)
      ≡ (if same_key (key_of v) key then some v else find_pending key xs)
unfolding find_pending insert_pending
find-insert_pending key v [] absent = refl
find-insert_pending key v (d ∷ ds) absent =
    let Goal : List Pending → Type 0 = λ xs.
      find_pending key xs
      ≡ (if same_key (key_of v) key then some v else find_pending key (d ∷ ds)) in
    if_intro Goal (key_ltb (key_of v) (key_of d)) (λ _. refl)
      (λ _.
        insert_later key v d ds _
          (find-insert_pending key v ds (absent_later (key_of v) d ds absent)) absent)

-- The snapshot shows what is pending.
pub sort_values-Agrees :
    (cs : List (PendingKey × PendingCall)) → IsKeyed cs → Agrees (sort_values cs) cs
unfolding sort_values find_pending find_call
sort_values-Agrees [] keyed key = refl
sort_values-Agrees ((k, c) ∷ rest) (own, absent, keyed) key =
    let before = sort_values-Agrees rest keyed in
    let none_before : find_pending (key_of c.value) (sort_values rest) ≡ none =
      before (key_of c.value) ∙ ap value_of (subst (λ x. find_call x rest ≡ none) own absent) in
    find-insert_pending key c.value (sort_values rest) none_before
    ∙ agree_head key k c _ _ own (before key)

pub find-forget_pending :
    (k key : PendingKey) (vs : List Pending)
    → find_pending k (forget_pending key vs) ≡ (if same_key key k then none else find_pending k vs)
unfolding find_pending forget_pending
find-forget_pending k key [] =
    if_intro {A = Option Pending} (λ o. none ≡ o) (same_key key k) (λ _. refl) (λ _. refl)
find-forget_pending k key (v ∷ vs) =
    let Goal : List Pending → Type 0 =
      λ xs. find_pending k xs ≡ (if same_key key k then none else find_pending k (v ∷ vs)) in
    if_intro Goal (same_key (key_of v) key)
      (λ is. find-forget_pending k key vs ∙ skip_head (key_of v) key k _ _ is)
      (λ no. keep_head (key_of v) key k _ _ _ no (find-forget_pending k key vs))

pub find-delete_call :
    (k key : PendingKey) (cs : List (PendingKey × PendingCall))
    → IsKeyed cs
    → find_call k (delete_call key cs) ≡ (if same_key key k then none else find_call k cs)
unfolding find_call delete_call
find-delete_call k key [] keyed =
    if_intro {A = Option PendingCall} (λ o. none ≡ o) (same_key key k) (λ _. refl) (λ _. refl)
find-delete_call k key ((j, c) ∷ rest) (own, absent, keyed) =
    let Goal : List (PendingKey × PendingCall) → Type 0 =
      λ xs. find_call k xs ≡ (if same_key key k then none else find_call k ((j, c) ∷ rest)) in
    if_intro Goal (same_key j key)
      (λ is.
        if_intro {A = Option PendingCall} (λ o. find_call k rest ≡ o) (same_key key k)
          (λ also.
            subst (λ x. find_call x rest ≡ none) (same_key_eq j key is ∙ same_key_eq key k also)
              absent)
          (λ _. refl)
        ∙ skip_head j key k (some c) _ is)
      (λ no. keep_head j key k _ _ _ no (find-delete_call k key rest keyed))
