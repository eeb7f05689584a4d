-- ===== src/Lib.antt =====
-- The core of Surface AI: the rules and the reasoning that turn facts on a surface into a verdict, the
-- task graph and the queues that run the work, the plugin manager, and the memory pools.
--
-- The program. The fact builder stores a detection, values of the knowledge graph and search results as
-- facts. A FactBase holds values under flat keys. The RuleEngine holds rule sets; the condition of
-- each rule is an expression tree that the condition builder makes from a YAML node. EvaluateAll
-- evaluates each rule set by a task of its own on a copy of the facts; evaluation stores memo entries in
-- that copy, under a hash of the source text of the node. ResolveConflicts takes the match from rules
-- that other matched rules override, unless the overrides form a cycle. Reason merges the resolved rules
-- into a trace, walks a decision tree over the facts, scores the leaf it lands in, maps label or score
-- to a verdict, and packs facts and rules as evidence that links to the trace. Apart from that, a
-- TaskGraph runs its tasks after their dependencies, each by submission to the queue of a worker pool; the
-- PluginManager loads plugins after their dependencies and stops them in reverse; the memory pools hand out
-- slabs from a lock-free list, by counted handles; the feature cache keeps the entries used last; the
-- hybrid retriever fuses the results of two searches.
--
-- The files.
--   Base, Base/{Tests,Lists,Text,Dict,Table,Fuel,Distinct,TakenOut}: passed-on library names, Boolean
--     tests, lists,
--     std::string as a list of characters in the order of std::less, std::map as a sorted association list,
--     tables with integer keys, calls on fuel, lists without repetition, and with an element taken out.
--   Core/Error: include/sai/core/error.h. Result has a third case, `fault`, for undefined behaviour
--     (a null pointer dereferenced, a vector read out of range) and for an exception that leaves a
--     noexcept function.
--   Core/TypeId, Core/Registry: include/sai/core/type_id.h and registry.h.
--   Rule/Double: the operations on double that the code uses, a parameter of all that follows.
--   Rule/Value: Value of include/sai/rule/value.h and src/rule/value.cpp.
--   Rule/FactBase: FactBase of include/sai/rule/fact_base.h and src/rule/fact_base.cpp.
--   Rule/Expression, Rule/Evaluate: the nodes of include/sai/rule/ast_nodes.h, their operator tables, and
--     Evaluate with EvalWithMemo of src/rule/expression.cpp; the mutated FactBase is passed as a state.
--   Rule/Meaning, Rule/Memo: evaluation without memo entries, and how memo entries relate to it.
--   Rule/Safety: expressions without empty operands.
--   Rule/Engine, Rule/Engine/{Transparent,Recovery}: EvaluateRuleSet and EvaluateAll of
--     src/rule/rule_engine.cpp.
--   Rule/Overlap, Rule/Overlap/{Common,Report}: DetectOverlaps of src/rule/rule_engine.cpp.
--   Rule/Loader, Rule/Loader/Loaded: LoadFromYAML of the same file.
--   Rule/GraphPaths, Rule/GraphPaths/{Split,Frame}, Rule/FactBuilder, Rule/FactBuilder/Stored,
--     Rule/VectorFacts, Rule/VectorFacts/Cached: src/rule/fact_builder.cpp, by its three sources of facts.
--   Rule/Conflict and its children: src/rule/conflict_resolver.cpp and ResolveConflicts; Paths has the
--     override graph and its cycles, Sources its edges, Search the depth-first search, Matched the index
--     of matched rules, Decision and Elimination the outcome.
--   Rule/Yaml, Rule/Condition, Rule/Condition/{Sound,Negation}: yaml-cpp nodes as a parameter, and
--     src/rule/condition_builder.cpp.
--   Rule/Sample, the Tests files: concrete data, runs, and the theorems at concrete inputs.
--   Reasoner/Tree: include/sai/reasoner/decision_tree.h and src/reasoner/decision_tree.cpp.
--   Reasoner/Loader, Reasoner/Loader/{Gives,Complete,Weights}: ParseNode and LoadFromYAML of the same
--     file, and
--     ReloadTree of src/reasoner/reasoner.cpp.
--   Reasoner/Score, Reasoner/Walk, Reasoner/Trace: src/reasoner/score_calculator.cpp, tree_walker.cpp and
--     trace_recorder.cpp, with Reasoner/Landing on where the walk ends.
--   Reasoner/Evidence, Reasoner/Links: src/reasoner/evidence_collector.cpp.
--   Reasoner/Reason, Reasoner/Outcome: src/reasoner/reasoner.cpp.
--   Runtime/TaskGraph, Runtime/TaskGraph/{Schedule,Ensure,Cycle}: src/runtime/task_graph.cpp and Dispatch
--     of
--     src/runtime/pipeline_executor.cpp; coroutines are functions, since a child runs to its end at once.
--   Runtime/WorkerPool, Runtime/WorkerPool/Fifo: src/runtime/worker_pool.cpp and task_scheduler.cpp; Fifo
--     has
--     the pool under any interleaving as a step relation, where a worker resumes a handle after the lock.
--   Plugin/Manifest, Plugin/Manager, Plugin/Manager/{Version,Order,Leaves,Loads,Closing,Retry}:
--     src/plugin/manifest.cpp and plugin_manager.cpp.
--   Memory/FreeList, Memory/FreeList/{Linked,Exchange}: include/sai/memory/free_list.h, each access of the
--     shared memory a step of some thread, sequentially consistent.
--   Memory/Pool, Memory/Pool/{Handles,Release,New}: src/memory/gpu_pool.cpp and pinned_pool.cpp with the
--     handles of
--     include/sai/memory/pooled_ptr.h, operations one after the other; addresses and
--     counts wrap around at their widths.
--   Embedding/FeatureCache, Embedding/FeatureCache/{Coherent,Recency,Eviction}:
--     src/embedding/feature_cache.cpp,
--     and the list of keys and values that it implements.
--   Retrieval/Fusion, Retrieval/Retriever, Retrieval/Unmapped: src/retrieval/score_fusion.cpp and
--     hybrid_retriever.cpp.
--
-- Parameters. Arithmetic, comparisons, printing and parsing of doubles (record Double), std::hash of a
-- source text (`hash`), the clocks (`now`, the readings in order), yaml-cpp (record Yaml), and the file
-- system of the loaders (`file`); floats and their casts (records Float, Floats); the knowledge graph and
-- the searches as
-- the fact builder and the retriever call them (records KnowledgeGraph, Retriever, Paths); what a run of
-- a task graph meets
-- (record World: stop token, submissions, work); and the dynamic linker with the code of the plugins
-- (record
-- Host, whose answers may depend on the calls before).
-- A hash collision is not excluded; an expression is coherent if nodes with one memo key have one
-- value and no field or path reads a memo key.
--
-- Fuel. dfs_visit takes the number of matched rules, since each nested call colours one more of them
-- gray. build_expression and parse_node take any number above the rank of their node in a finite
-- document. EnsureCompleted takes more than the rank of its task, where dependencies have lower ranks, and
-- EnsureLoaded more than the number of manifests, since each nested call visits another one. `none` is the
-- answer when fuel runs out.
--
-- Not modelled. Source locations of errors; log lines; the moves, which only leave empty objects behind;
-- the file watch, which does nothing yet; formal data races on `next` in the free list, whose accesses are
-- taken as atomic; a failure of cudaMalloc or of the arena while a pool is created.
-- Of the other directories: detection, the searches, pipeline, tuning, knowledge, infra,
-- devices and views; the numeric kernels, SQLite, OpenCV, Qt and HTTP code stay out.
pub mod Base
pub mod Core
pub mod Rule
pub mod Reasoner
pub mod Runtime
pub mod Embedding
pub mod Memory
pub mod Plugin
pub mod Retrieval
