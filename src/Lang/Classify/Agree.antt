-- ===== src/Lang/Classify/Agree.antt =====
-- The two judgements of a plugin agree on tests.
use aide_mcp.Base.{
  text_equal, [], true, false, if◌then◌else◌, Bool, Text, codes, ◌||◌, ◌≡◌, refl, ◌≢◌, sym, ◌∙◌,
  text_same, text_same_iff,
}
use aide_mcp.Lang.Classify.{
  is_rust_test, classify_rust_path, is_java_test, classify_java_path, is_node_test,
  classify_node_path, is_python_test, classify_python_path, is_go_test, classify_go_path,
  is_cpp_test, classify_cpp_path, rust_test_path, java_filename_looks_like_test, has_js_test_suffix,
  python_file_is_test, cpp_filename_looks_like_test,
}
use aide_mcp.Base.Strings.{to_ascii_lowercase, ends_with}
use aide_mcp.Lang.Paths.{filename_of}

-- The plugins; the two for Java share their conventions.
pub data Language : Type 0 where
  rust java_maven java_gradle node python go cpp : Language

-- `LanguagePlugin::is_test_symbol` of each plugin.
abbrev pub is_test_symbol : Language → Text → Text → Bool
is_test_symbol rust = is_rust_test
is_test_symbol java_maven = is_java_test
is_test_symbol java_gradle = is_java_test
is_test_symbol node = is_node_test
is_test_symbol python = is_python_test
is_test_symbol go = is_go_test
is_test_symbol cpp = is_cpp_test

-- `LanguagePlugin::classify_path` of each plugin.
abbrev pub classify_path : Language → Text → Text
classify_path rust = classify_rust_path
classify_path java_maven = classify_java_path
classify_path java_gradle = classify_java_path
classify_path node = classify_node_path
classify_path python = classify_python_path
classify_path go = classify_go_path
classify_path cpp = classify_cpp_path

or_left : (a b : Bool) → (a || false) ≡ true → (a || b) ≡ true
or_left true b h = refl
or_left false b h = absurd (cc h)

apart : (s t : Text) → text_same s t ≡ false → s ≢ t
apart s t h e = absurd (cc (sym h ∙ (text_same_iff s t).1 e))

-- The buckets other than tests.
is_other : (s : Text) → text_same s (codes "test") ≡ false → s ≢ codes "test"
is_other s = apart s (codes "test")

if_other :
    (b : Bool) (s t : Text)
    → s ≢ codes "test"
    → t ≢ codes "test"
    → (if b then s else t) ≢ codes "test"
if_other true s t hs ht = hs
if_other false s t hs ht = ht

bin_example_lib :
    (a b : Bool)
    → (if a then codes "bin" else if b then codes "example" else codes "lib") ≢ codes "test"
bin_example_lib a b =
    if_other a _ _ (is_other (codes "bin") refl)
      (if_other b _ _ (is_other (codes "example") refl) (is_other (codes "lib") refl))

test_if :
    (t : Bool) (other : Text)
    → other ≢ codes "test"
    → (if t then codes "test" else other) ≡ codes "test"
    → t ≡ true
test_if true other n h = refl
test_if false other n h = absurd (n h)

classified_rust :
    (path name : Text) → classify_rust_path path ≡ codes "test" → is_rust_test path name ≡ true
unfolding classify_rust_path is_rust_test
classified_rust path name h = or_left (rust_test_path (to_ascii_lowercase path)) _ (
    test_if (is_rust_test path []) _
      (if_other _ _ _ (is_other (codes "bin") refl) (
        if_other _ _ _ (is_other (codes "example") refl)
          (if_other _ _ _ (is_other (codes "bench") refl) (is_other (codes "lib") refl))))
      h)

or_left_right : (a b c : Bool) → (a || (b || false)) ≡ true → (a || (b || c)) ≡ true
or_left_right true b c h = refl
or_left_right false b c h = or_left b c h

classified_java :
    (path name : Text) → classify_java_path path ≡ codes "test" → is_java_test path name ≡ true
unfolding classify_java_path is_java_test
classified_java path name h = or_left_right _ (java_filename_looks_like_test path) _ (
    test_if (is_java_test path []) _
      (if_other _ _ _ (is_other (codes "example") refl) (is_other (codes "lib") refl)) h)

classified_node :
    (path name : Text) → classify_node_path path ≡ codes "test" → is_node_test path name ≡ true
unfolding classify_node_path is_node_test
classified_node path name h =
    or_left_right _ (has_js_test_suffix (to_ascii_lowercase path)) _
      (test_if (is_node_test path []) _ (bin_example_lib _ _) h)

classified_python :
    (path name : Text) → classify_python_path path ≡ codes "test" → is_python_test path name ≡ true
unfolding classify_python_path is_python_test
classified_python path name h =
    or_left_right _ (python_file_is_test (to_ascii_lowercase path)) _
      (test_if (is_python_test path []) _ (bin_example_lib _ _) h)

classified_go :
    (path name : Text) → classify_go_path path ≡ codes "test" → is_go_test path name ≡ true
unfolding classify_go_path is_go_test
classified_go path name h =
    or_left (ends_with (codes "_test.go") (filename_of (to_ascii_lowercase path))) _
      (test_if (is_go_test path []) _ (bin_example_lib _ _) h)

classified_cpp :
    (path name : Text) → classify_cpp_path path ≡ codes "test" → is_cpp_test path name ≡ true
unfolding classify_cpp_path is_cpp_test
classified_cpp path name h =
    or_left_right _ (cpp_filename_looks_like_test (to_ascii_lowercase path)) _
      (test_if (is_cpp_test path []) _ (bin_example_lib _ _) h)

-- For every plugin: where it classifies a path as test, it takes each symbol of that file for a test,
-- whatever the symbol's name.
pub classify_path-test :
    (l : Language) (path name : Text)
    → classify_path l path ≡ codes "test"
    → is_test_symbol l path name ≡ true
classify_path-test rust path name h = classified_rust path name h
classify_path-test java_maven path name h = classified_java path name h
classify_path-test java_gradle path name h = classified_java path name h
classify_path-test node path name h = classified_node path name h
classify_path-test python path name h = classified_python path name h
classify_path-test go path name h = classified_go path name h
classify_path-test cpp path name h = classified_cpp path name h
