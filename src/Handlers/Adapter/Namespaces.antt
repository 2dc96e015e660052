-- ===== src/Handlers/Adapter/Namespaces.antt =====
-- Where the outputs of a response of the second version go in that of the first.
use fledge_key_value_service.Base.{
  ◌⊎◌, ◌≡◌, refl, ◌∙◌, ap, String, false, Option, none, some, List, [], ◌∷◌, ◌==◌, if◌then◌else◌,
  Bool-cases, inl, inr,
}
use fledge_key_value_service.Base.Maps.{Map, find, insert_or_assign, find-insert_or_assign}
use fledge_key_value_service.Lookup.Types.{StatusOr, ok, err}
use fledge_key_value_service.Handlers.Adapter.{
  Response, find_tags, namespace_of, find_namespace, insert_parsed, insert_string,
  process_key_values, add_output, process_key_group_output,
}

-- The last value of the key in the list, or the given one.
unfoldable pub last_value : {V : Type 0} → String → List (String × V) → Option V → Option V
last_value k [] o = o
last_value k ((j, v) ∷ rest) o = last_value k rest (if j == k then some v else o)

-- The fields of the response.
pub data Field : Type 0 where
  keys render_urls ad_component_render_urls kv_internal : Field

-- The tags that requests of the second version are given for them.
abbrev pub tag_of : Field → String
tag_of keys = "keys"
tag_of render_urls = "renderUrls"
tag_of ad_component_render_urls = "adComponentRenderUrls"
tag_of kv_internal = "kvInternal"

abbrev pub field : {V : Type 0} → Field → Response V → Map V
field keys r = r.keys
field render_urls r = r.render_urls
field ad_component_render_urls r = r.ad_component_render_urls
field kv_internal r = r.kv_internal

module _ {V : Type 0} (string_value : V → Option String)
    (json_string_to_message : String → StatusOr V) where
  insert_parsed_other :
      (j k : String) (r : StatusOr V) (fields : Map V)
      → (j == k) ≡ false
      → find k (insert_parsed string_value json_string_to_message j r fields) ≡ find k fields
  unfolding insert_parsed
  insert_parsed_other j k (err e) fields h = refl
  insert_parsed_other j k (ok v) fields h = find-insert_or_assign j k v fields ∙ rw h

  insert_string_other :
      (j k : String) (o : Option String) (fields : Map V)
      → (j == k) ≡ false
      → find k (insert_string string_value json_string_to_message j o fields) ≡ find k fields
  unfolding insert_string
  insert_string_other j k none fields h = refl
  insert_string_other j k (some s) fields h =
      insert_parsed_other j k (json_string_to_message s) fields h

  process_key_values_lem :
      (k : String) (key_values : List (String × V)) (fields : Map V)
      → find k (process_key_values string_value json_string_to_message key_values fields)
        ≡ last_value k key_values (find k fields)
  unfolding process_key_values last_value
  process_key_values_lem k [] fields = refl
  process_key_values_lem k ((j, v) ∷ rest) fields =
      let before = insert_string string_value json_string_to_message j (string_value v) fields in
      let here : find k (insert_or_assign j v before) ≡ (if j == k then some v else find k fields) =
        find-insert_or_assign j k v before ∙ (elim (Bool-cases (j == k)) [
          | inl e ↦ rw e
          | inr e ↦ rw e (insert_string_other j k (string_value v) fields e)
        ]) in
      process_key_values_lem k rest (insert_or_assign j v before) ∙ ap (last_value k rest) here

  abbrev Adds : Field → Field → Type 0
  Adds f g =
      (k : String) (key_values : List (String × V)) (r : Response V)
      → find k
          (field g (add_output string_value json_string_to_message (ok (tag_of f)) key_values r))
        ≡ (if tag_of f == tag_of g
            then last_value k key_values (find k (field g r))
            else find k (field g r))

  add_output_lem : (f g : Field) → Adds f g
  unfolding add_output
  add_output_lem keys keys k key_values r = process_key_values_lem k key_values r.keys
  add_output_lem keys render_urls k key_values r = refl
  add_output_lem keys ad_component_render_urls k key_values r = refl
  add_output_lem keys kv_internal k key_values r = refl
  add_output_lem render_urls keys k key_values r = refl
  add_output_lem render_urls render_urls k key_values r =
      process_key_values_lem k key_values r.render_urls
  add_output_lem render_urls ad_component_render_urls k key_values r = refl
  add_output_lem render_urls kv_internal k key_values r = refl
  add_output_lem ad_component_render_urls keys k key_values r = refl
  add_output_lem ad_component_render_urls render_urls k key_values r = refl
  add_output_lem ad_component_render_urls ad_component_render_urls k key_values r =
      process_key_values_lem k key_values r.ad_component_render_urls
  add_output_lem ad_component_render_urls kv_internal k key_values r = refl
  add_output_lem kv_internal keys k key_values r = refl
  add_output_lem kv_internal render_urls k key_values r = refl
  add_output_lem kv_internal ad_component_render_urls k key_values r = refl
  add_output_lem kv_internal kv_internal k key_values r =
      process_key_values_lem k key_values r.kv_internal

  find_namespace_lem :
      (f : Field)
      → (find_namespace ("custom" ∷ tag_of f ∷ []) ≡ ok (tag_of f))
        × (find_namespace (tag_of f ∷ "custom" ∷ []) ≡ ok (tag_of f))
  unfolding find_namespace find_tags namespace_of
  find_namespace_lem keys = (refl, refl)
  find_namespace_lem render_urls = (refl, refl)
  find_namespace_lem ad_component_render_urls = (refl, refl)
  find_namespace_lem kv_internal = (refl, refl)

  -- An output whose tags are "custom" and that of a field, in either order, is added to that field and to
  -- no other: each key gets the last value that the output has for it, and keys that it does not have
  -- stay. A string value is taken as it is, even where it can be parsed as JSON.
  pub process_key_group_output_lem :
      (f g : Field) (k : String) (tags : List String) (key_values : List (String × V))
      (r : Response V)
      → (tags ≡ "custom" ∷ tag_of f ∷ []) ⊎ (tags ≡ tag_of f ∷ "custom" ∷ [])
      → find k (
          field g (
            process_key_group_output string_value json_string_to_message
              (record { tags = tags; key_values = key_values })
              r))
        ≡ (if tag_of f == tag_of g
            then last_value k key_values (find k (field g r))
            else find k (field g r))
  unfolding process_key_group_output
  process_key_group_output_lem f g k tags key_values r (inl e) =
      rw (e, (find_namespace_lem f).0) (add_output_lem f g k key_values r)
  process_key_group_output_lem f g k tags key_values r (inr e) =
      rw (e, (find_namespace_lem f).1) (add_output_lem f g k key_values r)
