-- ===== src/Trace/Tree.antt =====
-- The flattened frames keep the call tree: it can be read back from their order and depths.
use defi_tx_indexer.Prelude.{
  ℕ, zero, suc, ◌+◌, ◌<◌, ◌≤◌, ◌≡◌, refl, subst, true, false, List, [], ◌∷◌, ◌++◌, append_assoc,
  append-nil, length, length-append, arith, ◌==◌, if◌then◌else◌,
}
use defi_tx_indexer.Trace.{
  CallFrame, call_frame, Calls, no_calls, calls, FlatFrame, flat_frame, flatten_call_frame,
  flatten_calls,
}

-- A call tree over flat frames.
mutual
  pub data Tree : Type 0 where
    node : FlatFrame → Forest → Tree

  pub data Forest : Type 0 where
    no_trees : Forest
    trees : Tree → Forest → Forest

-- The call tree with its depths.
mutual
  unfolding flat_frame

  pub tree_of : CallFrame → ℕ → Tree
  tree_of (call_frame frame cs) depth = node (flat_frame frame depth) (forest_of cs (suc depth))

  pub forest_of : Calls → ℕ → Forest
  forest_of no_calls depth = no_trees
  forest_of (calls c cs) depth = trees (tree_of c depth) (forest_of cs depth)

-- Read the trees at a depth from the front of a list of frames: a frame at the depth starts a tree,
-- its children are the trees one deeper that follow.
pub rebuild : ℕ → ℕ → List FlatFrame → Forest × List FlatFrame
rebuild zero depth fs = (no_trees, fs)
rebuild (suc fuel) depth [] = (no_trees, [])
rebuild (suc fuel) depth (f ∷ fs) =
    let (children, behind) = rebuild fuel (suc depth) fs in
    let (others, left) = rebuild fuel depth behind in
    if f.depth == depth then (trees (node f children) others, left) else (no_trees, f ∷ fs)

-- The first of the frames, if there is one, is above the depth.
Above : ℕ → List FlatFrame → Type 0
Above depth [] = Unit
Above depth (f ∷ fs) = f.depth < depth

Above-calls :
    (cs : Calls) (depth : ℕ) (rest : List FlatFrame)
    → Above depth rest
    → Above (suc depth) (flatten_calls cs depth ++ rest)
unfolding Above flatten_calls flat_frame
Above-calls no_calls depth [] h = tt
Above-calls no_calls depth (f ∷ fs) h = omega arith
Above-calls (calls (call_frame frame ks) cs) depth rest h = omega arith

rebuild-Above :
    (fuel depth : ℕ) (rest : List FlatFrame)
    → Above depth rest
    → rebuild fuel depth rest ≡ (no_trees, rest)
unfolding Above rebuild
rebuild-Above zero depth rest h = refl
rebuild-Above (suc fuel) depth [] h = refl
rebuild-Above (suc fuel) depth (f ∷ fs) h =
    let other : (f.depth == depth) ≡ false = ground arith in rw other refl

mutual
  unfolding flatten_calls forest_of rebuild

  rebuild-call :
      (c : CallFrame) (depth fuel : ℕ) (cs : Calls) (rest : List FlatFrame)
      → Above depth rest
      → ((n : ℕ)
          → length (flatten_calls cs depth) ≤ n
          → rebuild n depth (flatten_calls cs depth ++ rest) ≡ (forest_of cs depth, rest))
      → length (flatten_call_frame c depth) + length (flatten_calls cs depth) ≤ fuel
      → rebuild fuel depth (flatten_call_frame c depth ++ (flatten_calls cs depth ++ rest))
        ≡ (trees (tree_of c depth) (forest_of cs depth), rest)
  rebuild-call (call_frame frame ks) depth zero cs rest h next enough = absurd (omega arith)
  rebuild-call (call_frame frame ks) depth (suc fuel) cs rest h next enough =
      let same : (depth == depth) ≡ true = ground arith in
      rw
        (
          rebuild-calls ks (suc depth) fuel (flatten_calls cs depth ++ rest)
              (Above-calls cs depth rest h) (omega arith),
          next fuel (omega arith),
          same,
        )
        refl

  rebuild-calls :
      (cs : Calls) (depth fuel : ℕ) (rest : List FlatFrame)
      → Above depth rest
      → length (flatten_calls cs depth) ≤ fuel
      → rebuild fuel depth (flatten_calls cs depth ++ rest) ≡ (forest_of cs depth, rest)
  rebuild-calls no_calls depth fuel rest h enough = rebuild-Above fuel depth rest h
  rebuild-calls (calls c cs) depth fuel rest h enough =
      rw (append_assoc (flatten_call_frame c depth) (flatten_calls cs depth) rest) (
        rebuild-call c depth fuel cs rest h (λ n e. rebuild-calls cs depth n rest h e)
          (omega (arith, length-append (flatten_call_frame c depth) (flatten_calls cs depth))))

-- The flat frames of a trace, in their order and with their depths, give back the call tree with
-- every frame in its place: the tree whose root is at depth 0, and nothing behind it.
pub flatten_call_frame_lem :
    (c : CallFrame)
    → rebuild (length (flatten_call_frame c 0)) 0 (flatten_call_frame c 0)
      ≡ (trees (tree_of c 0) no_trees, [])
flatten_call_frame_lem c =
    let fs : List FlatFrame = flatten_call_frame c 0 in
    let nothing : (n : ℕ) → 0 ≤ n → rebuild n 0 [] ≡ (no_trees, []) =
      λ n e. rebuild-Above n 0 [] (unfold Above in tt) in
    let whole : rebuild (length fs) 0 (fs ++ []) ≡ (trees (tree_of c 0) no_trees, []) =
      unfold flatten_calls forest_of in
      rebuild-call c 0 (length fs) no_calls [] (unfold Above in tt) nothing (omega arith) in
    subst (λ r. rebuild (length fs) 0 r ≡ (trees (tree_of c 0) no_trees, [])) (append-nil fs) whole
