-- ===== src/Storage/DiskToy.antt =====
-- A small encoding of the two JSON files and a small memory storage, for the tests.
use quorum_log.Prelude.{
  ℕ, zero, suc, ◌+◌, ◌-◌, ◌≡◌, refl, ap, ◌∙◌, false, Option, none, some, List, [], ◌∷◌, ◌++◌,
  length, take, ok,
}
use quorum_log.Raftpb.{Entry}
use quorum_log.Storage.Disk.{HardStateFile, SnapshotFile, FileJson, Memory}

-- A list is written as its elements plus one and then a zero.
abbrev put_list : List ℕ → List ℕ → List ℕ
put_list [] rest = 0 ∷ rest
put_list (x ∷ xs) rest = suc x ∷ put_list xs rest

abbrev push : ℕ → List ℕ × List ℕ → List ℕ × List ℕ
push x (xs, rest) = (x ∷ xs, rest)

abbrev get_list : List ℕ → List ℕ × List ℕ
get_list [] = ([], [])
get_list (zero ∷ rest) = ([], rest)
get_list (suc x ∷ rest) = push x (get_list rest)

get_list-put_list : (xs rest : List ℕ) → get_list (put_list xs rest) ≡ (xs, rest)
get_list-put_list [] rest = refl
get_list-put_list (x ∷ xs) rest = ap (push x) (get_list-put_list xs rest)

abbrev put_hard : HardStateFile → List ℕ
put_hard f = f.term ∷ f.vote ∷ f.commit ∷ []

abbrev get_hard : List ℕ → Option HardStateFile
get_hard (t ∷ v ∷ c ∷ []) = some (record { term = t; vote = v; commit = c })
get_hard _ = none

abbrev put_snap : SnapshotFile → List ℕ
put_snap f = f.index ∷ f.term ∷ put_list f.voters (put_list f.learners f.payload)

abbrev rest_of : ℕ → ℕ → List ℕ → List ℕ × List ℕ → SnapshotFile
rest_of i t voters (learners, payload) = record {
  index = i;
  term = t;
  voters = voters;
  learners = learners;
  payload = payload;
}

abbrev after_voters : ℕ → ℕ → List ℕ × List ℕ → SnapshotFile
after_voters i t (voters, rest) = rest_of i t voters (get_list rest)

abbrev get_snap : List ℕ → Option SnapshotFile
get_snap (i ∷ t ∷ rest) = some (after_voters i t (get_list rest))
get_snap _ = none

pub get_snap-put_snap : (f : SnapshotFile) → get_snap (put_snap f) ≡ some f
get_snap-put_snap f =
    ap (λ x. some (after_voters f.index f.term x))
      (get_list-put_list f.voters (put_list f.learners f.payload))
    ∙ ap (λ x. some (rest_of f.index f.term f.voters x)) (get_list-put_list f.learners f.payload)

abbrev pub toy_files : FileJson
toy_files = record {
  marshal_hard = put_hard;
  unmarshal_hard = get_hard;
  marshal_snap = put_snap;
  unmarshal_snap = get_snap;
  unmarshal-marshal_hard = λ f. refl;
  unmarshal-marshal_snap = get_snap-put_snap;
}

abbrev drop : ℕ → List Entry → List Entry
drop zero xs = xs
drop (suc n) [] = []
drop (suc n) (x ∷ xs) = drop n xs

-- The index that is compacted away, and the entries behind it.
pub record ToyMemory : Type 0 where
  pub offset : ℕ
  pub ents : List Entry

abbrev first_of : List Entry → ℕ → ℕ
first_of [] n = n
first_of (e ∷ es) n = e.index

abbrev toy_append : ToyMemory → List Entry → ToyMemory
toy_append m es = record m { ents = take (first_of es 0 - (m.offset + 1)) m.ents ++ es }

abbrev pub toy_memory : Memory
toy_memory = record {
  State = ToyMemory;
  Failure = ℕ;
  new = record { offset = 0; ents = [] };
  apply_snapshot = λ m snap. (record { offset = snap.index; ents = [] }, none);
  append = λ m es. (toy_append m es, none);
  set_hard_state = λ m hs. (m, none);
  create_snapshot =
      λ m i cs bytes. (m, ok (record { index = i; term = 1; conf_state = cs; payload = bytes }));
  compact = λ m i. (record { offset = i; ents = drop (i - m.offset) m.ents }, none);
  first_index = λ m. m.offset + 1;
  last_index = λ m. m.offset + length m.ents;
  entries = λ m lo hi. ok m.ents;
  is_out_of_date = λ f. false;
  is_compacted = λ f. false;
}
