-- ===== src/Hub/Changes.antt =====
-- daemon/pending.go: a new call and the end of a call change what a subscriber shows as they change what
-- is pending.
use spice_agent.Base.{
  ◌≡◌, refl, sym, ap, ◌∙◌, Bool, true, false, if◌then◌else◌, if_intro, List, [], ◌∷◌, Option, none,
  some, arith,
}
use spice_agent.Hub.Types.{Pending, PendingKey, PendingCall, key_of, opened, closed}
use spice_agent.Hub.Store.{find_call, delete_call, same_key}
use spice_agent.Hub.Replay.{
  replay_kind, Agrees, IsKeyed, value_of, find_pending, find-forget_pending, find-delete_call,
  same_key_eq, if_value,
}

pub opened-Agrees :
    (call : PendingCall) (cs : List (PendingKey × PendingCall)) (vs : List Pending)
    → Agrees vs cs
    → Agrees (replay_kind opened call.value vs) ((key_of call.value, call) ∷ cs)
unfolding replay_kind find_pending find_call
opened-Agrees call cs vs same key = if_value _ call _ _ (same key)

pub find_call-key :
    (key : PendingKey) (call : PendingCall) (cs : List (PendingKey × PendingCall))
    → IsKeyed cs
    → find_call key cs ≡ some call
    → key_of call.value ≡ key
unfolding find_call
find_call-key key call [] keyed found = absurd (grind arith)
find_call-key key call ((k, c) ∷ rest) (own, absent, keyed) found =
    if_intro (λ o. o ≡ some call → key_of call.value ≡ key) (same_key k key)
      (λ is e.
        let same : c ≡ call = grind arith in
        ap (λ x. key_of x.value) (sym same) ∙ sym own ∙ same_key_eq k key is)
      (λ _ e. find_call-key key call rest keyed e) found

if_none :
    (b : Bool) (o : Option Pending) (found : Option PendingCall)
    → o ≡ value_of found
    → (if b then none else o) ≡ value_of (if b then none else found)
if_none true o found same = refl
if_none false o found same = same

pub closed-Agrees :
    (key : PendingKey) (call : PendingCall) (cs : List (PendingKey × PendingCall))
    (vs : List Pending)
    → IsKeyed cs
    → key_of call.value ≡ key
    → Agrees vs cs
    → Agrees (replay_kind closed call.value vs) (delete_call key cs)
unfolding replay_kind
closed-Agrees key call cs vs keyed own same k =
    find-forget_pending k (key_of call.value) vs
    ∙ ap (λ x. if same_key x k then none else find_pending k vs) own
    ∙ if_none (same_key key k) _ _ (same k)
    ∙ ap value_of (sym (find-delete_call k key cs keyed))

pub delete_call-IsKeyed :
    (key : PendingKey) (cs : List (PendingKey × PendingCall))
    → IsKeyed cs
    → IsKeyed (delete_call key cs)
unfolding delete_call
delete_call-IsKeyed key [] keyed = tt
delete_call-IsKeyed key ((j, c) ∷ rest) (own, absent, keyed) =
    if_intro IsKeyed (same_key j key) (λ _. keyed)
      (λ _. (
        own,
        find-delete_call j key rest keyed
            ∙ if_intro {A = Option PendingCall} (λ o. o ≡ none) (same_key key j) (λ _. refl)
                (λ _. absent),
        delete_call-IsKeyed key rest keyed,
      ))
