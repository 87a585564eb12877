-- ===== src/Blocklist/Laws.antt =====
-- What the blocklist holds for each test file, and what repeated calls of the service do.
use Prim.Native.Char.{Char}
use Prim.Native.String.{◌∷◌}
use Prim.Native.String.append
use test_at_scale.Prelude.{
  ℕ, String, ◌⧺◌, ◌≡◌, refl, sym, ap, ◌∙◌, true, false, Option, none, some, List, [], ◌∷◌, ◌++◌,
  Dict, map, lookup, lookup-insert, str_eq, eq_iff, has_prefix, has_suffix, text_drop, text_length,
  has_prefix-split, has_prefix_refl, has_suffix-append, arith, Bool-cases, inl, inr, if◌then◌else◌,
  ◌==◌,
}
use mathlib.Core.List.{append_assoc}
use test_at_scale.Errs.{Err, Reply, got, refused}
use test_at_scale.Blocklist.Populate.{
  BlockTest, Locator, before_delimiter, with_delimiter, append_entry, populate_one, populate,
}
use test_at_scale.Blocklist.{
  ApiEntry, Remote, Service, new_service, of_api, of_yaml, fetch_from_neuron, run_once,
  get_block_tests, fetched, written,
}

abbrev pub entity_of : String → Locator → BlockTest
entity_of source test = record {
  source = source;
  locator = with_delimiter test.locator;
  status = test.status;
}

-- The entries that a list of locators gives to one file, in the order of the list.
abbrev pub entries_for : String → String → List Locator → List BlockTest
entries_for source file [] = []
entries_for source file (test ∷ tests) =
    if str_eq (before_delimiter (with_delimiter test.locator)) file
    then entity_of source test ∷ entries_for source file tests
    else entries_for source file tests

-- What a key holds once more entries follow.
abbrev pub extended : Option (List BlockTest) → List BlockTest → Option (List BlockTest)
extended o [] = o
extended none (e ∷ es) = some (e ∷ es)
extended (some v) (e ∷ es) = some (v ++ e ∷ es)

extended-append_entry :
    (o : Option (List BlockTest)) (e : BlockTest) (es : List BlockTest)
    → extended (some (append_entry o e)) es ≡ extended o (e ∷ es)
extended-append_entry none e [] = refl
extended-append_entry none e (d ∷ es) = refl
extended-append_entry (some v) e [] = refl
extended-append_entry (some v) e (d ∷ es) = ap some (append_assoc v (e ∷ []) (d ∷ es))

lookup-populate_one :
    (source file : String) (m : Dict (List BlockTest)) (test : Locator)
    → lookup file (populate_one source m test) ≡ (
        if str_eq (before_delimiter (with_delimiter test.locator)) file
        then some (append_entry (lookup file m) (entity_of source test))
        else lookup file m)
unfolding populate_one
lookup-populate_one source file m test =
    let key = before_delimiter (with_delimiter test.locator) in
    rw lookup-insert (elim (Bool-cases (str_eq key file)) [
      | inl same ↦ rw (same, (eq_iff key file).0 same)
      | inr other ↦ rw other
    ])

-- What a file has in the blocklist is what it had, and behind it the entries of the list in order.
pub lookup-populate :
    (source file : String) (m : Dict (List BlockTest)) (tests : List Locator)
    → lookup file (populate source m tests)
      ≡ extended (lookup file m) (entries_for source file tests)
unfolding populate
lookup-populate source file m [] = refl
lookup-populate source file m (test ∷ tests) =
    lookup-populate source file (populate_one source m test) tests
    ∙ ap (λ o. extended o (entries_for source file tests)) (lookup-populate_one source file m test)
    ∙ elim (Bool-cases (str_eq (before_delimiter (with_delimiter test.locator)) file)) [
      | inl same ↦ rw same (
          extended-append_entry (lookup file m) (entity_of source test)
            (entries_for source file tests))
      | inr other ↦ rw other
    ]

-- A text that ends in the delimiter and does not begin with it has the end further on.
not_whole :
    (c : Char) (s : String)
    → has_prefix (c ∷ s) "##" ≡ false
    → has_suffix (c ∷ s) "##" ≡ true
    → has_suffix s "##" ≡ true
unfolding has_suffix
not_whole c s later h = elim (Bool-cases (str_eq (c ∷ s) "##")) [
  | inl whole ↦
      cc (later, ap (λ t. has_prefix t "##") ((eq_iff (c ∷ s) "##").0 whole), has_prefix_refl "##")
  | inr other ↦ rw other at h
]

-- A locator with its delimiter is its file, the delimiter and a rest, so the slice that
-- `populateBlockList` takes at `strings.Index` never starts from -1.
before_delimiter-has_suffix :
    (s : String)
    → has_suffix s "##" ≡ true
    → (rest : String) × (s ≡ before_delimiter s ⧺ ("##" ⧺ rest))
unfolding has_suffix before_delimiter
before_delimiter-has_suffix String.[] h = cc
before_delimiter-has_suffix (c ∷ s) h = elim (Bool-cases (has_prefix (c ∷ s) "##")) [
  | inl here ↦ (
    text_drop (text_length "##") (c ∷ s),
    rw here (
        has_prefix-split (c ∷ s) "##" here
        ∙ sym (append.nil ("##" ⧺ text_drop (text_length "##") (c ∷ s)))),
  )
  | inr later ↦
      let (rest, e) = before_delimiter-has_suffix s (not_whole c s later h) in
      (rest, rw later (ap (λ u. c ∷ u) e ∙ sym (append.cons c (before_delimiter s) ("##" ⧺ rest))))
]

-- The files and entries that a successful first call hands to the file system: for each file the
-- yaml entries in their order, all blocklisted, and behind them the entries of the remote list.
abbrev pub IsBlocklistOf : List String → List ApiEntry → Dict (List BlockTest) → Type 0
IsBlocklistOf yaml remote m =
    (file : String)
    → lookup file m
      ≡ extended (extended none (entries_for "yml" file (map of_yaml yaml)))
          (entries_for "api" file (map of_api remote))

-- For every locator, with its delimiter added where it lacks one, the text is the name of its file,
-- the delimiter and a rest.
with_delimiter_splits :
    (locator : String)
    → (rest : String) × (with_delimiter locator
        ≡ before_delimiter (with_delimiter locator) ⧺ ("##" ⧺ rest))
unfolding with_delimiter
with_delimiter_splits locator =
    before_delimiter-has_suffix (with_delimiter locator)
      (elim (Bool-cases (has_suffix locator "##")) [
        | inl ended ↦ rw ended ended
        | inr open_end ↦ rw open_end (has_suffix-append locator "##")
      ])

err_chan-written : (o : Option Err) (m : Dict (List BlockTest)) → (written o m).err_chan ≡ o
err_chan-written none m = refl
err_chan-written (some e) m = refl

done-fetched :
    (remote : Remote) (before : Dict (List BlockTest)) (r : Reply (Dict (List BlockTest)))
    → (fetched remote before r).done ≡ true
done-fetched remote before (got m) = ground (arith, remote.write_file m)
done-fetched remote before (refused e) = refl

done-run_once :
    (remote : Remote) (yaml : List String) (branch : String) (s : Service)
    → (run_once remote yaml branch s).done ≡ true
unfolding run_once
done-run_once remote yaml branch s = done-fetched remote _ (fetch_from_neuron remote branch _)

-- The first call on a new service, when neuron answers with a status other than 404 and with a body
-- that decodes: it writes one blocklist, in which each file has its yaml entries and then its remote
-- ones, and it returns the error of that write, or none.
pub first_call_writes :
    (remote : Remote) (yaml : List String) (branch body : String) (status : ℕ)
    (entries : List ApiEntry)
    → remote.request branch ≡ (status, got body)
    → (status == 404) ≡ false
    → remote.unmarshal body ≡ got entries
    → (m : Dict (List BlockTest)) × IsBlocklistOf yaml entries m
      × ((get_block_tests remote yaml branch new_service).1 ≡ remote.write_file m)
unfolding get_block_tests run_once fetch_from_neuron lookup
first_call_writes remote yaml branch body status entries answered found decoded =
    let before = populate "yml" [] (map of_yaml yaml) in
    (
      populate "api" before (map of_api entries),
      λ file.
          lookup-populate "api" file before (map of_api entries)
          ∙ ap (λ o. extended o (entries_for "api" file (map of_api entries)))
              (lookup-populate "yml" file [] (map of_yaml yaml)),
      rw (answered, found, decoded) (err_chan-written (remote.write_file _) _),
    )

-- After any first call on a new service, a further call, with whatever list and branch, leaves the
-- service as it is and returns no error.
later_calls_do_nothing :
    (remote : Remote) (yaml later : List String) (branch other : String)
    → let s = (get_block_tests remote yaml branch new_service).0 in
      get_block_tests remote later other s ≡ (s, none)
unfolding get_block_tests
later_calls_do_nothing remote yaml later branch other =
    rw (done-run_once remote yaml branch new_service)
