-- ===== src/Agent/Tokens.antt =====
-- agent/run_identity.go: each token of the ledger goes to one run.
use spice_agent.Base.{
  ℕ, suc, ◌≤◌, ◌≡◌, ◌⊎◌, inl, inr, sym, ap, subst, ◌∙◌, List, some, arith, Bytes, find_key, put_key,
  delete_key, HasDistinctKeys, find-put_cases, find-delete_some,
}
use spice_agent.Agent.Ledger.{RunIdentityRecord}

-- The tokens of the records have been issued, each to one run.
pub record UsesTokens (m : List (Bytes × RunIdentityRecord)) (next : ℕ) : Type 0 where
  pub issued : (k : Bytes) (r : RunIdentityRecord) → find_key k m ≡ some r → r.token ≤ next
  pub one_run :
      (j k : Bytes) (r s : RunIdentityRecord)
      → find_key j m ≡ some r
      → find_key k m ≡ some s
      → r.token ≡ s.token
      → j ≡ k

module _ (m : List (Bytes × RunIdentityRecord)) (n : ℕ) (u : UsesTokens m n) (k : Bytes) where
  pub put_same-UsesTokens :
      (old new : RunIdentityRecord)
      → find_key k m ≡ some old
      → new.token ≡ old.token
      → UsesTokens (put_key k new m) n
  put_same-UsesTokens old new f same = record {
    issued = λ j r h. issued_by j r (find-put_cases j k new r m h);
    one_run = λ i j r s h h'.
        one_of i j r s (find-put_cases i k new r m h) (find-put_cases j k new s m h');
  }
    where
      issued_by :
          (j : Bytes) (r : RunIdentityRecord)
          → ((j ≡ k) × (r ≡ new)) ⊎ (find_key j m ≡ some r)
          → r.token ≤ n
      issued_by j r (inl (p, q)) =
          subst (λ x. x ≤ n) (sym (ap (λ x. x.token) q ∙ same)) (u.issued k old f)
      issued_by j r (inr h) = u.issued j r h

      one_of :
          (i j : Bytes) (r s : RunIdentityRecord)
          → ((i ≡ k) × (r ≡ new)) ⊎ (find_key i m ≡ some r)
          → ((j ≡ k) × (s ≡ new)) ⊎ (find_key j m ≡ some s)
          → r.token ≡ s.token
          → i ≡ j
      one_of i j r s (inl (p, q)) (inl (p', q')) t = p ∙ sym p'
      one_of i j r s (inl (p, q)) (inr h) t =
          p ∙ u.one_run k j old s f h (sym same ∙ sym (ap (λ x. x.token) q) ∙ t)
      one_of i j r s (inr h) (inl (p, q)) t =
          u.one_run i k r old h f (t ∙ ap (λ x. x.token) q ∙ same) ∙ sym p
      one_of i j r s (inr h) (inr h') t = u.one_run i j r s h h' t

  pub put_fresh-UsesTokens :
      (new : RunIdentityRecord) → new.token ≡ suc n → UsesTokens (put_key k new m) (suc n)
  put_fresh-UsesTokens new fresh = record {
    issued = λ j r h. issued_by j r (find-put_cases j k new r m h);
    one_run = λ i j r s h h'.
        one_of i j r s (find-put_cases i k new r m h) (find-put_cases j k new s m h');
  }
    where
      issued_by :
          (j : Bytes) (r : RunIdentityRecord)
          → ((j ≡ k) × (r ≡ new)) ⊎ (find_key j m ≡ some r)
          → r.token ≤ suc n
      issued_by j r (inl (p, q)) = omega (arith, ap (λ x. x.token) q ∙ fresh)
      issued_by j r (inr h) = omega (arith, u.issued j r h)

      one_of :
          (i j : Bytes) (r s : RunIdentityRecord)
          → ((i ≡ k) × (r ≡ new)) ⊎ (find_key i m ≡ some r)
          → ((j ≡ k) × (s ≡ new)) ⊎ (find_key j m ≡ some s)
          → r.token ≡ s.token
          → i ≡ j
      one_of i j r s (inl (p, q)) (inl (p', q')) t = p ∙ sym p'
      one_of i j r s (inl (p, q)) (inr h) t =
          absurd (omega (arith, ap (λ x. x.token) q, fresh, u.issued j s h, t))
      one_of i j r s (inr h) (inl (p, q)) t =
          absurd (omega (arith, ap (λ x. x.token) q, fresh, u.issued i r h, t))
      one_of i j r s (inr h) (inr h') t = u.one_run i j r s h h' t

  pub delete-UsesTokens : HasDistinctKeys m → UsesTokens (delete_key k m) n
  delete-UsesTokens d = record {
    issued = λ j r h. u.issued j r (find-delete_some j k r m d h).1;
    one_run = λ i j r s h h'.
        u.one_run i j r s (find-delete_some i k r m d h).1 (find-delete_some j k s m d h').1;
  }
