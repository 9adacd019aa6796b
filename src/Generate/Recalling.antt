-- ===== src/Generate/Recalling.antt =====
-- A small engine that remembers its last pass, and small drafters, on which the paths that verify
-- with a whole pass run: after n tokens the model's choice is n modulo 3.
use nunspark.Base.{
  ℕ, suc, ◌-◌, ◌+◌, ◌%◌, ◌*◌, ◌/◌, ◌≡◌, refl, ap, List, [], ◌∷◌, ◌++◌, false, map, length, take,
  ltb, drop, some, true, if◌then◌else◌, arith, length-take, length-drop, Bool-cases, inl, inr,
}
use nunspark.Generate.Engine.{Engine, Contract, RowContract, IsUnrotated, nexts}
use nunspark.Generate.Emit.{SpecStats, Run}
use nunspark.Generate.Draft.{DraftModel}
use nunspark.Generate.Draft.Cache.{DraftContract}
use nunspark.Generate.Hidden.{Hiddens, HiddenContract}
use nunspark.Generate.Eagle.{EagleModel}
use nunspark.Generate.Gemma.{Attended, AssistantModel}
use nunspark.Generate.Gemma.Round.{AttendedContract}
use nunspark.Generate.Adaptive.{Floats}

abbrev pub count_next : List ℕ → ℕ
count_next context = length context % 3

-- A trim below a window of 24 tokens drops the last ones; past it the wrong ones are lost.
abbrev pub trimmed : ℕ → List ℕ → List ℕ
trimmed n kv = if ltb (length kv) 24 then take (length kv - n) kv else drop n kv

pub length-trimmed : (n : ℕ) (kv : List ℕ) → length (trimmed n kv) ≡ length kv - n
length-trimmed n kv = elim (Bool-cases (ltb (length kv) 24)) [
  | inl below ↦ rw below (omega (arith, length-take (length kv - n) kv))
  | inr past ↦ rw past (length-drop n kv)
]

pub trimmed_below :
    (n : ℕ) (kv : List ℕ)
    → IsUnrotated (some 24) (length kv)
    → trimmed n kv ≡ take (length kv - n) kv
unfolding IsUnrotated
trimmed_below n kv below = let so : ltb (length kv) 24 ≡ true = ground arith in rw so refl

-- The keys and values of a window are those of its last 24 tokens.
abbrev pub windowed : List ℕ → List ℕ
windowed kv = drop (length kv - 24) kv

pub windowed_below : (kv : List ℕ) → IsUnrotated (some 24) (length kv) → windowed kv ≡ kv
unfolding IsUnrotated
windowed_below kv below =
    let none_out : length kv - 24 ≡ 0 = omega arith in ap (λ (n : ℕ). drop n kv) none_out

-- A store is its tokens with the tokens of the last pass.
abbrev pub recalling : Engine
recalling = record {
  Kv = List ℕ × List ℕ;
  Row = ℕ;
  Recs = List ℕ;
  forward = λ ts kv. (nexts count_next kv.0 ts, (kv.0 ++ ts, ts));
  verify_forward = λ ts kv. (nexts count_next kv.0 ts, ts);
  commit_verified = λ kv recs n. (kv.0 ++ take n recs, kv.1);
  truncate = λ n kv. (trimmed n kv.0, kv.1);
  argmax = λ row. row;
  near_tie = λ row. false;
  vocab = 3;
  top_k = λ row k. row ∷ [];
  supports_quantized_kv = false;
  window = some 24;
}

pub map_same : (xs : List ℕ) → map (λ x. x) xs ≡ xs
map_same [] = refl
map_same (x ∷ xs) = ap (◌∷◌ x) (map_same xs)

abbrev pub recalling-Contract : Contract recalling
recalling-Contract = record {
  holds = λ kv. kv.0;
  next = count_next;
  forward_rows = λ ts kv. map_same (nexts count_next kv.0 ts);
  forward_holds = λ ts kv. refl;
  verify_rows = λ ts kv. map_same (nexts count_next kv.0 ts);
  commit_holds = λ ts kv n h. refl;
  truncate_length = λ n kv. length-trimmed n kv.0;
  truncate_holds = λ n kv below. trimmed_below n kv.0 below;
}

pub length-nexts :
    (next : List ℕ → ℕ) (context ts : List ℕ) → length (nexts next context ts) ≡ length ts
length-nexts next context [] = refl
length-nexts next context (t ∷ ts) = ap suc (length-nexts next (context ++ t ∷ []) ts)

abbrev pub recalling-RowContract : RowContract recalling
recalling-RowContract = record { forward_length = λ ts kv. length-nexts count_next kv.0 ts }

-- A hidden state is the number of its token; the tokens of the window are the attention states.
abbrev pub hiddens : Hiddens recalling
hiddens = record { Hidden = ℕ; last_hidden_state = λ kv. kv.1 }

abbrev pub hiddens-Contract : HiddenContract hiddens
hiddens-Contract = record { hidden_rows = λ ts kv. refl }

abbrev pub attended : Attended recalling
attended = record {
  States = List ℕ;
  target_kv_states = λ kv. windowed kv.0;
  first_positions = λ n states. take n states;
  Embed = ℕ;
  embed_tokens = λ t. t;
}

abbrev pub attended-Contract : AttendedContract recalling-Contract attended
attended-Contract = record {
  covers = λ states. states;
  states_cover = λ ts kv below. windowed_below (kv.0 ++ ts) below;
  first_cover = λ n ts kv below. ap (take n) (windowed_below (kv.0 ++ ts) below);
}

-- An EAGLE drafter that counts on from the last token modulo 3, whatever the hidden state.
abbrev pub counting_on : EagleModel ℕ
counting_on = record {
  Logits = ℕ;
  call = λ hidden token. (hidden, (token + 1) % 3);
  argmax = λ row. row;
  categorical = λ row. 0;
}

-- An assistant that knows the position only: right for the first draft of a round.
abbrev pub by_position : AssistantModel ℕ (List ℕ) ℕ
by_position = record {
  Logits = ℕ;
  embed_astype = λ x. x;
  hidden_astype = λ x. x;
  states_astype = λ x. x;
  call = λ inputs states position. (inputs.1, (position + 1) % 3);
  argmax = λ row. row;
}

-- A draft model that follows the target's rule.
abbrev pub following : DraftModel
following = record {
  Cache = List ℕ;
  Row = ℕ;
  make_prompt_cache = [];
  call = λ ts cache. (nexts count_next cache ts, cache ++ ts);
  argmax = λ row. row;
  trim = λ n cache. take (length cache - n) cache;
}

abbrev pub following-Contract : DraftContract following
following-Contract = record {
  tokens = λ cache. cache;
  fresh_tokens = refl;
  call_tokens = λ ts cache. refl;
  call_rows = λ ts cache. length-nexts count_next cache ts;
  trim_tokens = λ n cache. refl;
}

-- Rates as numbers of hundredths.
abbrev pub hundredths : Floats
hundredths = record {
  Float = ℕ;
  nought = 0;
  ratio = λ m k. m * 100 / k;
  plus = λ x y. x + y;
  over = λ x n. x / n;
  above = λ x y. ltb y x;
  four_fifths = 80;
  three_fifths = 60;
}

abbrev pub prompt : List ℕ
prompt = 0 ∷ 1 ∷ 2 ∷ 0 ∷ 1 ∷ []

abbrev pub first_stats : SpecStats
first_stats = record {
  target_passes = 0;
  tokens_emitted = 1;
  draft_tokens_proposed = 0;
  accepted_offpath = 0;
  accepted_total = 0;
  near_tie_rows = 0;
}

abbrev pub first_run : Run
first_run = record { out = 2 ∷ []; emitted = 1; stats = first_stats }
