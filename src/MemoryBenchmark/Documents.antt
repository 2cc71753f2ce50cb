-- ===== src/MemoryBenchmark/Documents.antt =====
-- The JSON documents of memoryBenchmarkScript/memory_benchmark.py.
use Prim.Native.String.{String}
use fun_with_dragonfly_db.Prelude.{
  ℕ, zero, suc, ◌+◌, ◌*◌, ◌%◌, List, [], ◌∷◌, ◌++◌, ltb, ◌==◌, if◌then◌else◌, Text, codes, decimal,
}

-- A document: its arrays and objects are lists of documents.
mutual
  pub data Json : Type 0 where
    text : Text → Json
    number : ℕ → Json
    array_of : Items → Json
    object_of : Fields → Json

  pub data Items : Type 0 where
    no_items : Items
    item_then : Json → Items → Items

  pub data Fields : Type 0 where
    no_fields : Fields
    field_then : Text → Json → Fields → Fields

abbrev items_of : List Json → Items
items_of [] = no_items
items_of (x ∷ xs) = item_then x (items_of xs)

abbrev fields_of : List (Text × Json) → Fields
fields_of [] = no_fields
fields_of ((name, x) ∷ xs) = field_then name x (fields_of xs)

abbrev pub array : List Json → Json
array xs = array_of (items_of xs)

abbrev pub object : List (Text × Json) → Json
object xs = object_of (fields_of xs)

abbrev str : String → Json
str s = text (codes s)

-- The parts that the two documents share.
abbrev times : Json
times = array (
    object ((codes "military", str "0800") ∷ (codes "civilian", str "8 AM") ∷ [])
    ∷ object ((codes "military", str "1500") ∷ (codes "civilian", str "3 PM") ∷ [])
    ∷ object ((codes "military", str "2200") ∷ (codes "civilian", str "10 PM") ∷ [])
    ∷ [])

abbrev days : Json
days =
    array (str "Mon" ∷ str "Tue" ∷ str "Wed" ∷ str "Thu" ∷ str "Fri" ∷ str "Sat" ∷ str "Sun" ∷ [])

abbrev feeding : ℕ → Json
feeding idx = text (codes "Gorilla Feeding #" ++ decimal idx)

abbrev duncan_name : ℕ → Json
duncan_name idx = text (codes "Duncan Mills " ++ decimal idx)

abbrev duncan_email : ℕ → Json
duncan_email idx = text (codes "dmills" ++ (decimal idx ++ codes "@zew.org"))

abbrev xiria_name : ℕ → Json
xiria_name idx = text (codes "Xiria Andrus " ++ decimal idx)

abbrev xiria_email : ℕ → Json
xiria_email idx = text (codes "xiriaa" ++ (decimal idx ++ codes "@zew.org"))

-- `_make_medium_doc`
unfoldable pub make_medium_doc : ℕ → Json
make_medium_doc idx = object (
    (codes "times", times)
    ∷ (
      codes "responsible_parties",
      object (
          (codes "number_of_contacts", number 2)
          ∷ (
            codes "hosts",
            array (
                object (
                  (codes "phone", str "715-876-5500")
                  ∷ (codes "name", duncan_name idx)
                  ∷ (codes "email", duncan_email idx)
                  ∷ [])
                ∷ object (
                    (codes "phone", str "815-336-5500")
                    ∷ (codes "name", xiria_name idx)
                    ∷ (codes "email", xiria_email idx)
                    ∷ [])
                ∷ []),
          )
          ∷ []),
    )
    ∷ (codes "cost", number 0)
    ∷ (codes "name", feeding idx)
    ∷ (codes "days", days)
    ∷ (codes "location", str "Gorilla House South")
    ∷ [])

-- `names[i]`, for an i that is in range.
abbrev pick : List Json → ℕ → Json
pick [] i = str ""
pick (x ∷ xs) zero = x
pick (x ∷ xs) (suc i) = pick xs i

abbrev injury_types : List Json
injury_types = str "bruise" ∷ str "injury" ∷ str "wound" ∷ str "fracture" ∷ str "laceration" ∷ []

abbrev incident_locations : List Json
incident_locations =
    str "Enclosure B-4"
    ∷ str "Main Training Field"
    ∷ str "Feeding Sector Alpha"
    ∷ str "Recovery Zone C"
    ∷ str "Observation Deck 2"
    ∷ []

abbrev treatment_types : List Json
treatment_types =
    str "Cold compression therapy"
    ∷ str "Diagnostic X-Ray and Rest"
    ∷ str "Antiseptic flush and bandaging"
    ∷ str "Physical therapy and monitoring"
    ∷ str "Surgical intervention and recovery"
    ∷ []

abbrev statuses : List Json
statuses = str "Monitoring" ∷ str "Improving" ∷ str "Fully Recovered" ∷ []

abbrev facility : Json
facility = object (
    (codes "role", str "Marsupial Training Center")
    ∷ (
      codes "species_served",
      array (str "Kangaroo" ∷ str "Opossum" ∷ str "Wombat" ∷ str "Koala" ∷ []),
    )
    ∷ (codes "current_gps_location", str "117.14803,32.73259")
    ∷ (
      codes "contact",
      object ((codes "name", str "Front Desk") ∷ (codes "phone", str "832-677-5555") ∷ []),
    )
    ∷ [])

-- `{n:02d}`
abbrev two_digits : ℕ → Text
two_digits n = if ltb n 10 then codes "0" ++ decimal n else decimal n

abbrev date_text : ℕ → ℕ → Text
date_text month day = codes "2026-" ++ (two_digits month ++ (codes "-" ++ two_digits day))

-- The attending vet of an even case.
unfoldable pub veterinarian : ℕ → ℕ → Json
veterinarian idx c = object (
    (codes "name", text (codes "Dr. Vet-" ++ (decimal idx ++ (codes "-" ++ decimal c))))
    ∷ (codes "role", str "veterinarian")
    ∷ (codes "status", str "hired")
    ∷ (codes "species_speciality", str "Kangaroo")
    ∷ (codes "days_in_zoo", number 1020)
    ∷ (codes "search_set_rank", number (c + 1))
    ∷ (codes "current_gps_location", str "117.14803,32.73259")
    ∷ (
      codes "description",
      text (codes "An excellent vet with " ++ (decimal (12 + c * 2) ++ codes " years experience")),
    )
    ∷ (
      codes "emergency_contact",
      object (
          (codes "name", text (codes "Mrs Vet-" ++ (decimal idx ++ (codes "-" ++ decimal c))))
          ∷ (codes "phone", str "722-766-2400")
          ∷ []),
    )
    ∷ [])

-- `treatment`
unfoldable pub treatment : ℕ → ℕ → Json
unfolding veterinarian
treatment idx c = object (
    ((codes "treatment_type", pick treatment_types (c % 5))
      ∷ (codes "date_administered", text (date_text (3 + c) (10 + c)))
      ∷ (codes "facility", facility)
      ∷ [])
    ++ (if c % 2 == 0 then (codes "attending_veterinarian", veterinarian idx c) ∷ [] else []))

-- `recovery`, from the note `r` on.
unfoldable pub recovery_from : ℕ → ℕ → ℕ → List Json
recovery_from c r zero = []
recovery_from c r (suc rounds) =
    object (
      (codes "date", text (date_text (3 + c) (10 + c + 5 + r)))
      ∷ (codes "status", pick statuses (if ltb r 2 then r else 2))
      ∷ (
        codes "notes",
        text (
            codes "Recovery note "
            ++ (decimal (r + 1) ++ (codes " for case " ++ (decimal (c + 1) ++ codes ".")))),
      )
      ∷ [])
    ∷ recovery_from c (suc r) rounds

-- One item of `cases`.
unfoldable pub make_case : ℕ → ℕ → Json
unfolding treatment recovery_from
make_case idx c = object (
    (codes "injury_type", pick injury_types (c % 5))
    ∷ (codes "date_occurred", text (date_text (3 + c) (10 + c)))
    ∷ (codes "location_of_incident", pick incident_locations (c % 5))
    ∷ (codes "treatments", array (treatment idx c ∷ []))
    ∷ (codes "recovery_progress_history", array (recovery_from c 0 (c + 1)))
    ∷ [])

-- `cases`, from the case `c` on.
unfoldable pub cases_from : ℕ → ℕ → ℕ → List Json
unfolding make_case
cases_from idx c zero = []
cases_from idx c (suc rounds) = make_case idx c ∷ cases_from idx (suc c) rounds

abbrev pub num_cases : ℕ → ℕ
num_cases idx = 3 + idx % 5

-- `_make_deep_doc`
unfoldable pub make_deep_doc : ℕ → Json
unfolding cases_from
make_deep_doc idx = object (
    (
      codes "zoo_event",
      object (
          (codes "name", feeding idx)
          ∷ (codes "location", str "Gorilla House South")
          ∷ (codes "cost", number 0)
          ∷ (codes "days", days)
          ∷ (codes "times", times)
          ∷ (
            codes "responsible_parties",
            object (
                (codes "number_of_contacts", number 2)
                ∷ (
                  codes "hosts",
                  array (
                      object (
                        (codes "name", duncan_name idx)
                        ∷ (codes "phone", str "715-876-5500")
                        ∷ (codes "email", duncan_email idx)
                        ∷ [])
                      ∷ object (
                          (codes "name", xiria_name idx)
                          ∷ (codes "phone", str "815-336-5500")
                          ∷ (codes "email", xiria_email idx)
                          ∷ [])
                      ∷ []),
                )
                ∷ []),
          )
          ∷ []),
    )
    ∷ (
      codes "medical_records",
      object (
          (codes "total_incidents", number (num_cases idx))
          ∷ (codes "cases", array (cases_from idx 0 (num_cases idx)))
          ∷ []),
    )
    ∷ [])
