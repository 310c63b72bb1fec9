-- ===== src/Tests/Sample.antt =====
-- A digest and a codec that keep the laws, and the thunks of the examples.
use gg.Prelude.{
  ℕ, zero, suc, ◌≡◌, refl, true, List, [], ◌∷◌, ◌++◌, append_assoc, none, length, take, drop,
  replicate, length-replicate, take-append, drop-append, All,
}
use gg.Text.{Bytes, codes}
use gg.Hash.{Digest, is_base64_url}
use gg.Thunk.{Thunk, ThunkOutput}
use gg.Thunk.Wire.{ProtoThunk, Codec}
use gg.Graph.{Graph}

pub All-base64 : (n : ℕ) → All (λ c. is_base64_url c ≡ true) (replicate n b'A')
All-base64 zero = tt
All-base64 (suc n) = (refl, All-base64 n)

-- Every text has the digest "AA…A".
abbrev pub digest : Digest
digest = record {
  sha256 = λ s. replicate 43 b'A';
  length-sha256 = λ s. length-replicate {A = ℕ} 43 b'A';
  sha256_base64 = λ s. All-base64 43;
}

unfoldable pub put_text : Bytes → Bytes
put_text s = length s ∷ s

unfoldable pub put_texts : List Bytes → Bytes
unfolding put_text
put_texts [] = []
put_texts (s ∷ ss) = put_text s ++ put_texts ss

unfoldable pub put_pairs : List (Bytes × Bytes) → Bytes
unfolding put_text
put_pairs [] = []
put_pairs ((a, b) ∷ ps) = put_text a ++ (put_text b ++ put_pairs ps)

get_text : Bytes → Bytes × Bytes
get_text [] = ([], [])
get_text (n ∷ s) = (take n s, drop n s)

get_texts : ℕ → Bytes → List Bytes × Bytes
get_texts zero s = ([], s)
get_texts (suc n) s = let t = get_text s in let ts = get_texts n t.1 in (t.0 ∷ ts.0, ts.1)

get_pairs : ℕ → Bytes → List (Bytes × Bytes) × Bytes
get_pairs zero s = ([], s)
get_pairs (suc n) s =
    let a = get_text s in
    let b = get_text a.1 in let ps = get_pairs n b.1 in ((a.0, b.0) ∷ ps.0, ps.1)

get-put_text : (s rest : Bytes) → get_text (put_text s ++ rest) ≡ (s, rest)
unfolding get_text put_text
get-put_text s rest =
    λ i. (take-append s rest (length s) refl i, drop-append s rest (length s) refl i)

get-put_texts :
    (ss : List Bytes) (rest : Bytes) → get_texts (length ss) (put_texts ss ++ rest) ≡ (ss, rest)
unfolding get_texts put_texts
get-put_texts [] rest = refl
get-put_texts (s ∷ ss) rest =
    rw
      (
        append_assoc (put_text s) (put_texts ss) rest,
        get-put_text s (put_texts ss ++ rest),
        get-put_texts ss rest,
      )
      refl

get-put_pairs :
    (ps : List (Bytes × Bytes)) (rest : Bytes)
    → get_pairs (length ps) (put_pairs ps ++ rest) ≡ (ps, rest)
unfolding get_pairs put_pairs
get-put_pairs [] rest = refl
get-put_pairs ((a, b) ∷ ps) rest =
    rw
      (
        append_assoc (put_text a) (put_text b ++ put_pairs ps) rest,
        append_assoc (put_text b) (put_pairs ps) rest,
        get-put_text a (put_text b ++ (put_pairs ps ++ rest)),
        get-put_text b (put_pairs ps ++ rest),
        get-put_pairs ps rest,
      )
      refl

unfoldable pub put_list : List Bytes → Bytes
unfolding put_texts
put_list ss = length ss ∷ put_texts ss

get_list : Bytes → List Bytes × Bytes
get_list [] = ([], [])
get_list (n ∷ s) = get_texts n s

get-put_list : (ss : List Bytes) (rest : Bytes) → get_list (put_list ss ++ rest) ≡ (ss, rest)
unfolding get_list put_list
get-put_list ss rest = get-put_texts ss rest

unfoldable pub put_links : List (Bytes × Bytes) → Bytes
unfolding put_pairs
put_links ps = length ps ∷ put_pairs ps

get_links : Bytes → List (Bytes × Bytes) × Bytes
get_links [] = ([], [])
get_links (n ∷ s) = get_pairs n s

get-put_links :
    (ps : List (Bytes × Bytes)) (rest : Bytes) → get_links (put_links ps ++ rest) ≡ (ps, rest)
unfolding get_links put_links
get-put_links ps rest = get-put_pairs ps rest

unfoldable pub encode : ProtoThunk → Bytes
unfolding put_text put_list put_links
encode p =
    p.timeout
    ∷ (put_text p.function.hash
        ++ (put_list p.function.args
            ++ (put_list p.function.envars
                ++ (put_list p.values
                    ++ (put_list p.thunks
                        ++ (put_list p.executables
                            ++ (put_list p.outputs ++ (put_links p.links ++ []))))))))

nothing : ProtoThunk
nothing = record {
  function = record { hash = []; args = []; envars = [] };
  values = [];
  thunks = [];
  executables = [];
  outputs = [];
  links = [];
  timeout = 0;
}

pub decode : Bytes → ProtoThunk
decode [] = nothing
decode (timeout ∷ s) =
    let hash = get_text s in
    let args = get_list hash.1 in
    let envars = get_list args.1 in
    let values = get_list envars.1 in
    let thunks = get_list values.1 in
    let executables = get_list thunks.1 in
    let outputs = get_list executables.1 in
    let links = get_links outputs.1 in
    record {
      function = record { hash = hash.0; args = args.0; envars = envars.0 };
      values = values.0;
      thunks = thunks.0;
      executables = executables.0;
      outputs = outputs.0;
      links = links.0;
      timeout = timeout;
    }

pub decode-encode : (p : ProtoThunk) → decode (encode p) ≡ p
unfolding decode encode
decode-encode p =
    rw
      (
        get-put_text p.function.hash _,
        get-put_list p.function.args _,
        get-put_list p.function.envars _,
        get-put_list p.values _,
        get-put_list p.thunks _,
        get-put_list p.executables _,
        get-put_list p.outputs _,
        get-put_links p.links _,
      )
      refl

abbrev pub codec : Codec
codec = record { encode = encode; decode = decode; decode-encode = decode-encode }

abbrev pub name_value : Bytes
name_value = b'V' ∷ []

abbrev pub name_thunk : Bytes
name_thunk = b'T' ∷ []

abbrev pub name_tool : Bytes
name_tool = b'V' ∷ b'x' ∷ []

-- A thunk that waits for the thunk "T", which its first argument names.
abbrev pub waiting : Thunk
waiting = record {
  function = record { hash = name_tool; args = codes "@{GGHASH:T}" ∷ []; envars = [] };
  values = (name_tool, b'i' ∷ []) ∷ [];
  thunks = (name_thunk, b'a' ∷ []) ∷ [];
  executables = (name_tool, []) ∷ [];
  outputs = (b'o' ∷ []) ∷ [];
  links = (b'l' ∷ [], name_value) ∷ [];
  timeout = 3;
  hash_ = none;
}

-- The same one, when "T" has the value "V".
abbrev pub ready : Thunk
ready = record {
  function = record { hash = name_tool; args = codes "@{GGHASH:V}" ∷ []; envars = [] };
  values = (name_value, b'a' ∷ []) ∷ (name_tool, b'i' ∷ []) ∷ [];
  thunks = [];
  executables = (name_tool, []) ∷ [];
  outputs = (b'o' ∷ []) ∷ [];
  links = (b'l' ∷ [], name_value) ∷ [];
  timeout = 3;
  hash_ = none;
}

abbrev pub output : ThunkOutput
output = record { hash = name_value; tag = b'o' ∷ [] }

abbrev pub name_top : Bytes
name_top = b'T' ∷ b'1' ∷ []

-- "T1" waits for "T", which can run.
abbrev pub graph : Graph
graph = record {
  thunks = (name_top, waiting) ∷ (name_thunk, ready) ∷ [];
  referencing = (name_top, []) ∷ (name_thunk, name_top ∷ []) ∷ [];
  value_dependencies = [];
  executable_dependencies = [];
  original_hashes = (name_top, codes "T0") ∷ [];
  updated_hashes = (codes "T0", name_top) ∷ [];
  blobs = [];
}
