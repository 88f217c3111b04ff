-- ===== src/ManageDt/Query/Found.antt =====
-- The look-up of a twin's instance and of its content, said without the code that makes them.
use oci_iot_samples.Base.{
  subst, ◌≢◌, ◌⊎◌, ℕ, String, ◌≡◌, refl, ap, ◌∙◌, Option, none, some, List, [], ◌∷◌, eqb, arith,
  Bool-cases, inl, inr,
}
use oci_iot_samples.Base.Exec.{
  service_error, Exec, Outcome, ok, raised, pending, after_try, pure, >>=-eq-ok,
}
use oci_iot_samples.ManageDt.DataAccess.{give_up, good}
use oci_iot_samples.ManageDt.Resources.{
  TwinClient, only_of, chosen, data_of, get_chosen, get_digital_twin_instance_by_name,
  get_digital_twin_instance_content,
}
use oci_iot_samples.ManageDt.Query.Printing.{Gave}

module _ {W Content : Type 0} (client : TwinClient W Content) (domain : String) where
  good-eq : {A : Type 0} (r : Option (ℕ × A)) (a : A) → good r ≡ some a → r ≡ some (200, a)
  good-eq none a h = cc
  good-eq (some (status, b)) a h = elim (Bool-cases (eqb status 200)) [
    | inl e ↦
        let same = rw e at h in
        let status_200 : status ≡ 200 = ground (arith, e) in cc (same, status_200)
    | inr e ↦ let other = rw e at h in cc (other)
  ]

  data_of-eq :
      {A : Type 0} (call : Exec W (Option (ℕ × A))) (a : A)
      → Gave (data_of client domain call) (some a)
      → Gave call (some (200, a))
  data_of-eq {A = A} call a (w, w', h) = go (call w).0 (call w).1 refl h
    where
      go :
          (o : Outcome (Option (ℕ × A))) (s : W)
          → call w ≡ (o, s)
          → after_try o s give_up (λ response. pure (good response)) ≡ (ok (some a), w')
          → Gave call (some (200, a))
      go (ok r) s e h =
          let found : good r ≡ some a = cc (h) in
          (w, s, e ∙ ap (λ r. (ok r, s)) (good-eq r a found))
      go (raised x) s e h = ground (arith, h)
      go pending s e h = cc (h)

  -- The call raised a ServiceError, or its response has no status 200.
  abbrev Failed : {A : Type 0} → Exec W (Option (ℕ × A)) → Type 0
  Failed {A} call =
      (w : W) × (((status : ℕ) × (service_code : String) × (message : String) × ((call w).0
            ≡ raised (service_error status service_code message)))
        ⊎ ((response : Option (ℕ × A)) × ((call w).0 ≡ ok response)
            × ((a : A) → response ≢ some (200, a))))

  data_of-Failed :
      {A : Type 0} (call : Exec W (Option (ℕ × A)))
      → Gave (data_of client domain call) none
      → Failed call
  data_of-Failed {A = A} call (w, w', h) = (w, go (call w).0 (call w).1 h)
    where
      go :
          (o : Outcome (Option (ℕ × A))) (s : W)
          → after_try o s give_up (λ response. pure (good response)) ≡ (ok none, w')
          → ((status : ℕ) × (service_code : String) × (message : String) × (o
                ≡ raised (service_error status service_code message)))
            ⊎ ((response : Option (ℕ × A)) × (o ≡ ok response)
                × ((a : A) → response ≢ some (200, a)))
      go (ok r) s h =
          let missing : good r ≡ none = cc (h) in
          inr (r, refl, λ a e. let found = ap good e in cc (found, missing))
      go (raised (service_error status service_code message)) s h =
          inl (status, service_code, message, refl)
      go (raised x) s h = ground (arith, h)
      go pending s h = cc (h)

  -- What the response for the instance's content has, or none where the call failed.
  abbrev pub IsContentOf : String → Option Content → Type 0
  IsContentOf id none = Failed (client.get_content id)
  IsContentOf id (some content) = Gave (client.get_content id) (some (200, content))

  pub content-IsContentOf :
      (id : String) (content : Option Content)
      → Gave (get_digital_twin_instance_content client domain id) content
      → IsContentOf id content
  unfolding get_digital_twin_instance_content
  content-IsContentOf id none gave = data_of-Failed (client.get_content id) gave
  content-IsContentOf id (some content) gave = data_of-eq (client.get_content id) content gave

  -- The instance that was got by the id of the only one that is listed under the name, or none where not just
  -- one is listed or getting it failed.
  abbrev pub IsInstanceOf : String → Option Content → Type 0
  IsInstanceOf name none =
      (response : Option (ℕ × List String)) × Gave (client.list_instances domain name) response
      × ((id : String) → response ≡ some (200, id ∷ []) → Failed (client.get_instance id))
  IsInstanceOf name (some content) =
      (id : String) × Gave (client.list_instances domain name) (some (200, id ∷ []))
      × Gave (client.get_instance id) (some (200, content))

  only-eq : (ids : List String) (id : String) → only_of ids ≡ some id → ids ≡ id ∷ []
  only-eq [] id h = cc
  only-eq (a ∷ []) id h = let e : a ≡ id = cc (h) in ap (λ a. a ∷ []) e
  only-eq (a ∷ b ∷ ids) id h = cc

  chosen-eq :
      (response : Option (ℕ × List String)) (id : String)
      → chosen only_of response ≡ some id
      → response ≡ some (200, id ∷ [])
  unfolding chosen
  chosen-eq none id h = cc
  chosen-eq (some (status, ids)) id h = elim (Bool-cases (eqb status 200)) [
    | inl e ↦
        let only = only-eq ids id (rw (e, chosen) at h) in
        let status_200 : status ≡ 200 = ground (arith, e) in cc (only, status_200)
    | inr e ↦ let other = rw (e, chosen) at h in cc (other)
  ]

  chosen-listed :
      (response : Option (ℕ × List String)) (id : String)
      → response ≡ some (200, id ∷ [])
      → chosen only_of response ≡ some id
  unfolding chosen
  chosen-listed response id e = rw e refl

  abbrev with_response : Option (ℕ × List String) → Exec W (Option Content)
  with_response response = get_chosen client domain (chosen only_of response)

  none-IsInstanceOf :
      (name : String) (response : Option (ℕ × List String)) (w w1 w' : W)
      → client.list_instances domain name w ≡ (ok response, w1)
      → with_response response w1 ≡ (ok none, w')
      → IsInstanceOf name none
  none-IsInstanceOf name response w w1 w' e h = (
    response,
    (w, w1, e),
    λ id listed.
        let choice = chosen-listed response id listed in
        data_of-Failed (client.get_instance id)
          (w1, w', subst (λ c. get_chosen client domain c w1 ≡ (ok none, w')) choice h),
  )

  some-IsInstanceOf :
      (name : String) (content : Content) (response : Option (ℕ × List String))
      (choice : Option String) (w w1 w' : W)
      → chosen only_of response ≡ choice
      → client.list_instances domain name w ≡ (ok response, w1)
      → get_chosen client domain choice w1 ≡ (ok (some content), w')
      → IsInstanceOf name (some content)
  some-IsInstanceOf name content response none w w1 w' c e h = cc (h)
  some-IsInstanceOf name content response (some id) w w1 w' c e h = (
    id,
    (w, w1, e ∙ ap (λ r. (ok r, w1)) (chosen-eq response id c)),
    data_of-eq (client.get_instance id) content (w1, w', h),
  )

  pub instance-IsInstanceOf :
      (name : String) (found : Option Content)
      → Gave (get_digital_twin_instance_by_name client domain name) found
      → IsInstanceOf name found
  unfolding get_digital_twin_instance_by_name
  instance-IsInstanceOf name none (w, w', h) =
      let (response, w1, e, h1) =
        >>=-eq-ok (client.list_instances domain name) with_response {s = w} h in
      none-IsInstanceOf name response w w1 w' e h1
  instance-IsInstanceOf name (some content) (w, w', h) =
      let (response, w1, e, h1) =
        >>=-eq-ok (client.list_instances domain name) with_response {s = w} h in
      some-IsInstanceOf name content response (chosen only_of response) w w1 w' refl e h1
