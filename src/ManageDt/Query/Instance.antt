-- ===== src/ManageDt/Query/Instance.antt =====
-- What `query_instance` has printed when it returns, by the calls that it makes.
use oci_iot_samples.Base.{
  ℕ, String, ◌≡◌, refl, Bool, true, false, Option, none, some, List, [], ◌∷◌, ◌++◌,
}
use oci_iot_samples.ManageDt.DataAccess.{DataAccess, Platform, get_data_access_parameters}
use oci_iot_samples.ManageDt.RecentData.{DataApi}
use oci_iot_samples.ManageDt.Resources.{TwinClient, TwinConfig, get_digital_twin_instance_content}
use oci_iot_samples.ManageDt.Query.Printing.{
  Gave, Says, Says-bind, Says-next, Says-weaken, services-Says, print-Says, pure-Says,
}
use oci_iot_samples.ManageDt.Query.Reports.{IsRecent, print_recent-Says}
use oci_iot_samples.ManageDt.Query.{
  Printed, content_panel, Texts, on_services, print, recent_with, print_content, is_structured,
  query_instance,
}

module _ {W Content : Type 0} (texts : Texts) (client : TwinClient W Content)
    (platform : Platform W) (api : DataApi W) (iot_domain_id : String) (config : TwinConfig)
    (id_of : Content → String) (now last_minutes : ℕ) where
  -- One panel of the instance's content for a twin with a model, and none without.
  abbrev pub IsContent : String → Bool → List (Printed Content) → Type 0
  IsContent id false u = u ≡ []
  IsContent id true u =
      (content : Option Content) × Gave (get_digital_twin_instance_content client iot_domain_id id)
        content
      × (u ≡ content_panel content ∷ [])

  abbrev pub IsRecentWith : String → Option DataAccess → List (Printed Content) → Type 0
  IsRecentWith id none u = u ≡ []
  IsRecentWith id (some access) u =
      IsRecent texts client platform api iot_domain_id config id_of now last_minutes id access u

  -- What is printed of an instance: its content, and then what the data API has of it, where there is access.
  abbrev pub IsReport : Option Content → List (Printed Content) → Type 0
  IsReport none u = u ≡ []
  IsReport (some digital_twin_instance) u =
      (access : Option DataAccess) × (c : List (Printed Content)) × (d : List (Printed Content))
      × Gave (get_data_access_parameters platform iot_domain_id now) access
      × IsContent (id_of digital_twin_instance)
          (is_structured texts client platform api iot_domain_id config id_of now last_minutes) c
      × IsRecentWith (id_of digital_twin_instance) access d
      × (u ≡ c ++ d)

  print_content-Says :
      (id : String) (structured : Bool)
      → Says
          (print_content texts client platform api iot_domain_id config id_of now last_minutes id
            structured)
          (λ _ u. IsContent id structured u)
  print_content-Says id false = pure-Says {W = W} tt
  print_content-Says id true =
      Says-next (on_services texts (get_digital_twin_instance_content client iot_domain_id id)) _ _
        _ (services-Says texts _)
        (λ content gave.
          Says-weaken (print texts (content_panel content)) _ _
            (print-Says texts (content_panel content)) (λ _ u e. (content, gave, e)))

  recent_with-Says :
      (id : String) (access : Option DataAccess)
      → Says
          (recent_with texts client platform api iot_domain_id config id_of now last_minutes id
            access)
          (λ _ u. IsRecentWith id access u)
  recent_with-Says id none = pure-Says {W = W} tt
  recent_with-Says id (some access) =
      print_recent-Says texts client platform api iot_domain_id config id_of now last_minutes id
        access

  pub query_instance-Says :
      (found : Option Content)
      → Says
          (query_instance texts client platform api iot_domain_id config id_of now last_minutes
            found)
          (λ _ u. IsReport found u)
  query_instance-Says none = pure-Says {W = W} tt
  query_instance-Says (some digital_twin_instance) =
      let id = id_of digital_twin_instance in
      let structured =
        is_structured texts client platform api iot_domain_id config id_of now last_minutes in
      Says-bind
        (print_content texts client platform api iot_domain_id config id_of now last_minutes id
          structured)
        _ _ _ (print_content-Says id structured)
        (λ _ c is_content.
          Says-next (on_services texts (get_data_access_parameters platform iot_domain_id now)) _ _
            _ (services-Says texts _)
            (λ access gave.
              Says-weaken
                (recent_with texts client platform api iot_domain_id config id_of now last_minutes
                  id access)
                _ _ (recent_with-Says id access)
                (λ _ d is_recent. (access, c, d, gave, is_content, is_recent, refl))))
