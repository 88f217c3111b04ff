-- ===== src/ManageDt/Resources/Deletion.antt =====
-- What a deletion by name or by URI deletes.
use text.Mathlib.TextEquality.{starts_with_iff}
use text.Mathlib.TextLemmas.{prefix-append}
use oci_iot_samples.Base.{
  ℕ, String, ◌<>◌, ◌≡◌, ◌≢◌, ◌↔◌, [], refl, Bool, true, false, Option, none, some, List, ◌∷◌, map,
  select, arith, starts_with,
}
use oci_iot_samples.Base.Exec.{Exec, Outcome, ok, after}
use oci_iot_samples.ManageDt.Resources.{
  TwinClient, chosen, only_of, is_deleted, delete_chosen, delete_digital_twin_model_by_spec_uri,
  delete_digital_twin_adapter_by_name,
}

module _ {W : Type 0} (delete : String → Exec W (Option ℕ)) (w : W) where
  -- `r` is what comes of the deletion of this item, or of none.
  abbrev pub Deleted : Option String → Outcome Bool × W → Type 0
  Deleted none r = r ≡ (ok false, w)
  Deleted (some id) r =
      (r.1 ≡ (delete id w).1) × ((r.0 ≡ ok true) ↔ ((delete id w).0 ≡ ok (some 204)))

module _ {W Content : Type 0} (client : TwinClient W Content) (domain : String) where
  delete_chosen-Deleted :
      (delete : String → Exec W (Option ℕ)) (w : W) (item : Option String)
      → Deleted delete w item (delete_chosen client domain delete item w)
  unfolding is_deleted
  delete_chosen-Deleted delete w none = refl
  delete_chosen-Deleted delete w (some id) = ground arith

  -- The item is the only one of a response that is there and whose status is 200; there is none
  -- where the response is not such.
  abbrev pub IsOnly : Option (ℕ × List String) → Option String → Type 0
  IsOnly response none = (id : String) → response ≢ some (200, id ∷ [])
  IsOnly response (some id) = response ≡ some (200, id ∷ [])

  chosen-IsOnly : (response : Option (ℕ × List String)) → IsOnly response (chosen only_of response)
  unfolding chosen
  chosen-IsOnly none = λ id h. cc
  chosen-IsOnly (some (status, [])) = ground arith
  chosen-IsOnly (some (status, id ∷ [])) = ground arith
  chosen-IsOnly (some (status, a ∷ b ∷ ids)) = ground arith

  -- With a listing that changes nothing: if its response has the status 200 and lists one adapter, then
  -- just that one is deleted, and the answer is True exactly when the deletion was answered by 204.
  -- With any other response the answer is False, and nothing has changed.
  pub delete_adapter-Deleted :
      (name : String) (response : Option (ℕ × List String)) (w : W)
      → client.list_adapters domain name w ≡ (ok response, w)
      → (item : Option String) × IsOnly response item
        × Deleted client.delete_adapter w item
            (delete_digital_twin_adapter_by_name client domain name w)
  unfolding delete_digital_twin_adapter_by_name
  delete_adapter-Deleted name response w listed = (
    chosen only_of response,
    chosen-IsOnly response,
    rw (listed, after) (delete_chosen-Deleted client.delete_adapter w (chosen only_of response)),
  )

-- A model, as a listing finds it.
pub record StoredModel : Type 0 where
  pub id : String
  pub spec_uri : String

abbrev pub id_of : StoredModel → String
id_of m = m.id

abbrev pub has_prefix : String → StoredModel → Bool
has_prefix spec_uri m = starts_with m.spec_uri spec_uri

-- The listing of models is of those whose URI starts with the text, and changes nothing.
abbrev pub ListsByPrefix :
    {W Content : Type 0} → TwinClient W Content → String → (W → List StoredModel) → Type 0
ListsByPrefix {W} client domain models =
    (spec_uri : String) (w : W)
    → client.list_models domain spec_uri w
      ≡ (ok (some (200, map id_of (select (has_prefix spec_uri) (models w)))), w)

-- When models are listed by the beginning of their URI, without a change, and the first that is
-- stored has a URI that goes on behind the one asked for, then the deletion by URI leaves the world
-- that the deletion of that other model leaves.
pub longer_uri-deleted :
    {W Content : Type 0} (client : TwinClient W Content) (domain : String)
    (models : W → List StoredModel) (a b spec_uri suffix : String) (others : List StoredModel)
    (w : W)
    → ListsByPrefix client domain models
    → models w
      ≡ record { id = a; spec_uri = spec_uri <> suffix }
        ∷ record { id = b; spec_uri = spec_uri }
        ∷ others
    → (delete_digital_twin_model_by_spec_uri client domain spec_uri w).1
      ≡ (client.delete_model a w).1
unfolding delete_digital_twin_model_by_spec_uri select chosen
longer_uri-deleted client domain models a b spec_uri suffix others w lists stored =
    let found = (starts_with_iff (spec_uri <> suffix) spec_uri).1 (prefix-append spec_uri suffix) in
    rw (lists spec_uri w, stored) (ground (arith, found))
