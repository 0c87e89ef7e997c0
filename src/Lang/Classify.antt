-- ===== src/Lang/Classify.antt =====
-- The conventions by which the plugins of crates/aide-lang/src/languages tell tests, binaries and
-- examples from paths and names.
pub mod Agree
use aide_mcp.Base.{
  text_equal, [], ◌∷◌, none, some, false, if◌then◌else◌, List, Bool, Text, codes, text_same, ◌||◌,
  ◌&&◌, any, length, ltb, not,
}
use aide_mcp.Base.Strings.{starts_with, ends_with, contains, to_ascii_lowercase}
use aide_mcp.Lang.Paths.{in_dir, file_stem, is_test_dir, filename_of, has_extension}

abbrev pub rust_test_path : Text → Bool
rust_test_path p =
    in_dir (codes "tests/") p || (ends_with (codes "_test.rs") p || ends_with (codes "_tests.rs") p)

unfoldable pub is_rust_test : Text → Text → Bool
is_rust_test relative_path display_name =
    let name = to_ascii_lowercase display_name in
    rust_test_path (to_ascii_lowercase relative_path)
    || (starts_with (codes "test_") name
        || (ends_with (codes "_test") name || ends_with (codes "_tests") name))

unfoldable pub classify_rust_path : Text → Text
unfolding is_rust_test
classify_rust_path relative_path =
    let p = to_ascii_lowercase relative_path in
    if is_rust_test relative_path []
    then codes "test"
    else if text_same p (codes "src/main.rs") || in_dir (codes "src/bin/") p
    then codes "bin"
    else if in_dir (codes "examples/") p
    then codes "example"
    else if in_dir (codes "benches/") p
    then codes "bench"
    else codes "lib"

abbrev pub java_filename_looks_like_test : Text → Bool
java_filename_looks_like_test path = elim (file_stem (filename_of path)) [
  | none ↦ false
  | some stem ↦
      let lowered = to_ascii_lowercase stem in
      starts_with (codes "test") lowered
      || (ends_with (codes "test") lowered
          || (ends_with (codes "tests") lowered
              || (ends_with (codes "testcase") lowered
                  || (ends_with (codes "IT") stem || ends_with (codes "ITCase") stem))))
]

unfoldable pub is_java_test : Text → Text → Bool
is_java_test relative_path display_name =
    let lowered = to_ascii_lowercase relative_path in
    (in_dir (codes "src/test/") lowered || is_test_dir lowered)
    || (java_filename_looks_like_test relative_path
        || (starts_with (codes "test") display_name && ltb 4 (length display_name)))

unfoldable pub classify_java_path : Text → Text
unfolding is_java_test
classify_java_path relative_path =
    let p = to_ascii_lowercase relative_path in
    if is_java_test relative_path []
    then codes "test"
    else if in_dir (codes "examples/") p || contains (codes "src/main/examples/") p
    then codes "example"
    else codes "lib"

abbrev pub js_test_suffixes : List Text
js_test_suffixes =
    codes ".test.ts"
    ∷ codes ".test.tsx"
    ∷ codes ".test.js"
    ∷ codes ".test.jsx"
    ∷ codes ".spec.ts"
    ∷ codes ".spec.tsx"
    ∷ codes ".spec.js"
    ∷ codes ".spec.jsx"
    ∷ []

abbrev pub has_js_test_suffix : Text → Bool
has_js_test_suffix path = any (λ s. ends_with s path) js_test_suffixes

abbrev pub entry_points : List Text
entry_points =
    codes "it"
    ∷ codes "test"
    ∷ codes "describe"
    ∷ codes "suite"
    ∷ codes "before"
    ∷ codes "after"
    ∷ codes "beforeeach"
    ∷ codes "beforeall"
    ∷ codes "aftereach"
    ∷ codes "afterall"
    ∷ []

unfoldable pub is_node_test : Text → Text → Bool
is_node_test relative_path display_name =
    let path = to_ascii_lowercase relative_path in
    let name = to_ascii_lowercase display_name in
    (is_test_dir path || in_dir (codes "__tests__/") path)
    || (has_js_test_suffix path
        || ((starts_with (codes "test_") name
              || (starts_with (codes "test ") name || ends_with (codes "_test") name))
            || any (λ e. text_same name e) entry_points))

unfoldable pub classify_node_path : Text → Text
unfolding is_node_test
classify_node_path relative_path =
    let p = to_ascii_lowercase relative_path in
    if is_node_test relative_path []
    then codes "test"
    else if in_dir (codes "bin/") p
    then codes "bin"
    else if in_dir (codes "examples/") p
    then codes "example"
    else codes "lib"

-- `filename` has the extension `.py`, and is named as a test.
abbrev pub python_file_is_test : Text → Bool
python_file_is_test path =
    let filename = filename_of path in
    has_extension (codes "py" ∷ []) filename
    && (starts_with (codes "test_") filename || ends_with (codes "_test.py") filename)

unfoldable pub is_python_test : Text → Text → Bool
is_python_test relative_path name =
    let path = to_ascii_lowercase relative_path in
    is_test_dir path
    || (python_file_is_test path
        || ((starts_with (codes "test_") name || ends_with (codes "_test") name)
            || (starts_with (codes "Test") name && not (text_same name (codes "Test")))))

unfoldable pub classify_python_path : Text → Text
unfolding is_python_test
classify_python_path relative_path =
    let p = to_ascii_lowercase relative_path in
    if is_python_test relative_path []
    then codes "test"
    else if (in_dir (codes "bin/") p || in_dir (codes "scripts/") p)
        || (ends_with (codes "/__main__.py") p || text_same p (codes "__main__.py"))
    then codes "bin"
    else if in_dir (codes "examples/") p
    then codes "example"
    else codes "lib"

abbrev pub is_test_name : Text → Text → Bool
is_test_name prefix name = starts_with prefix name && ltb (length prefix) (length name)

unfoldable pub is_go_test : Text → Text → Bool
is_go_test relative_path display_name =
    ends_with (codes "_test.go") (filename_of (to_ascii_lowercase relative_path))
    || any (λ prefix. is_test_name prefix display_name)
        (codes "Test" ∷ codes "Benchmark" ∷ codes "Example" ∷ codes "Fuzz" ∷ [])

unfoldable pub classify_go_path : Text → Text
unfolding is_go_test
classify_go_path relative_path =
    let p = to_ascii_lowercase relative_path in
    if is_go_test relative_path []
    then codes "test"
    else if in_dir (codes "cmd/") p
        || (ends_with (codes "/main.go") p || text_same p (codes "main.go"))
    then codes "bin"
    else if in_dir (codes "examples/") p
    then codes "example"
    else codes "lib"

abbrev pub is_cpp_main_file : Text → Bool
is_cpp_main_file path =
    let filename = filename_of path in
    has_extension (codes "cpp" ∷ codes "cc" ∷ codes "cxx" ∷ codes "c" ∷ []) filename
    && (elim (file_stem filename) [
      | none ↦ false
      | some s ↦ text_same (to_ascii_lowercase s) (codes "main")
    ])

abbrev pub cpp_filename_looks_like_test : Text → Bool
cpp_filename_looks_like_test path = elim (file_stem (filename_of path)) [
  | none ↦ false
  | some stem ↦
      starts_with (codes "test_") stem
      || (ends_with (codes "_test") stem || ends_with (codes "_tests") stem)
]

unfoldable pub is_cpp_test : Text → Text → Bool
is_cpp_test relative_path display_name =
    let path = to_ascii_lowercase relative_path in
    is_test_dir path
    || (cpp_filename_looks_like_test path
        || ((starts_with (codes "test_") display_name
              || (ends_with (codes "_test") display_name
                  || ends_with (codes "_tests") display_name))
            || (starts_with (codes "TEST_") display_name
                || starts_with (codes "TEST(") display_name)))

unfoldable pub classify_cpp_path : Text → Text
unfolding is_cpp_test
classify_cpp_path relative_path =
    let p = to_ascii_lowercase relative_path in
    if is_cpp_test relative_path []
    then codes "test"
    else if in_dir (codes "bin/") p || is_cpp_main_file p
    then codes "bin"
    else if in_dir (codes "examples/") p
    then codes "example"
    else codes "lib"
