-- ===== src/Lib.antt =====
-- gomake: a build tool whose targets are Go functions. `gomake` finds the makefiles of a project,
-- collects their targets, generates and compiles a program, and runs a target in it; built-in
-- targets run with no compiler.
--
-- The parts, with the files that model them:
--   Env          pkg/gomake/env.go and the lookups of pkg/gomake/os.go: environments as lists of
--                texts and as maps.
--   Target       internal/mkf/target.go, internal/mkf/target_methods.go: the target record.
--   Targets      internal/parser/targets.go: the collection of unique targets that the parser
--                fills, `Add`, `Get`, `List`, `Names`, `markDefault`, `Map` with `BuiltInCB`.
--   Name         internal/parser/target.go, internal/parser/helpers.go: `toKebabCase`,
--                `targetName`, `setDerivedFields`.
--   Alias        internal/parser/targets.go: the import aliases of generated code,
--                `importAliasMap`, `uniqueImportAlias`, `goImports`, `codePkgName`.
--   Error        error values as trees, with `errors.Is`, `errors.As` and `errors.AsType`.
--   Exec         internal/mkf/helpers.go: exit codes, `FindTarget`, `pickTarget`, `runTarget`;
--                `compileExit` of internal/cli/main.go, `ExitStatus` and `HasRun` of
--                pkg/gomake/os.go.
--   Value        decoded YAML and JSON, Go's `any`.
--   ConfigFile   internal/cli/config_file.go: which block of the gomake.yaml files a target is
--                given, `resolveDelivered`, `resolveTargetBlock`, `settingKeys`, `knownNodes`;
--                `checkConfigProblems`.
--   CfgPath      pkg/gomake/config.go: how a target reads its block, `splitPath`, `arrayIndex`,
--                `resolve`.
--   Imports      internal/cli/imports_config.go and `applyExternalTargetMeta` of
--                internal/cli/main.go: lists of external targets.
--   Cli          internal/cli/main.go: `Main` and `complete`; `invokedTarget` of
--                internal/cli/config_file.go.
--   Osarch       internal/osarch/osarch.go and its tables: platforms.
--   Sources      internal/cli/helpers.go: the names and the choice of makefiles, and the removal of
--                build constraints from them.
--   Workspace    internal/cli/helpers.go, pkg/gomake/root.go and sys.go: the searches for go.mod
--                and go.work, and how go.work and go.mod are edited for a build directory.
--   Cache        internal/cli/cache.go: the text whose hash is the key of a binary.
--   Prepare      `prepare` of internal/cli/helpers.go: the build directory, as a trace of what is
--                made, written and removed.
--   Options      internal/cli/config.go, `parse`, and `applyFileConfig` of config_file.go.
--                ConfigFile/Load reads the files of settings, and ConfigFile/Deliver gives a target
--                its block.
--   Syntax       internal/parser/helpers.go: what is read from the syntax trees of Go.
--                Syntax/Trail has the breadcrumbs, Syntax/Tags the tags, defaults and comments.
--   Scan         `newTarget` of internal/parser/target.go; `addFunc`, `addMethods` and `addType` of
--                internal/parser/targets.go (Scan/Types); internal/parser/makefile.go
--                (Scan/Makefile).
--   Compile      internal/cli/cli.go: `newGoMake`, which joins Prepare and Scan, and `Execute`, which
--                runs a binary from the cache or a new one.
--   Program      internal/mkf/makefile.go: `NewMakefile` and `Execute` of the compiled program.
--   Local        internal/parser/local.go and `astFiles` of internal/parser/ast.go.
--   Version      internal/version/version.go.
--   Install      internal/install/main.go, the modules of a workspace for local targets;
--                internal/cli/pull_orchestrate.go, the imports that are fetched.
--   Base         what they share: texts, maps, sorting, decimal numerals, signed numbers, and the
--                paths of Go's `filepath` on Unix (Base/Path).
--   Tests        runs on concrete inputs.
--
-- A string is the list of its bytes. A map is an association list with one entry for each key, and
-- what is said of it is said by `lookup`; where the code sorts the keys of a map, so does the
-- model. A function that changes its receiver returns the new one beside its result.
--
-- A path is a text, and a file system is a function from paths to what stat gives. A result with an
-- error is `Workspace.Result`; a step of `prepare` has the trace of its effects beside it. A syntax
-- tree has the parts that the parser looks at, and an identifier is resolved to a type of its file.
--
-- Main calls the runtime (Exec) for a built-in target and the parser (Targets, Alias) through
-- newGoMake for the others; before a target runs, ConfigFile chooses its block and Imports its meta
-- values, and the target reads the block by CfgPath. `Cli.main` computes the trace of a run, which
-- lists what it does in order, from a record `World` of what its calls give; a call may also panic,
-- and Main recovers. The event `execute` stands for the whole of Execute, which may compile. The
-- messages of progress are not in the trace.
--
-- A run of a target is split at its channel: `target_routine` is the goroutine, with the target as
-- any function of the process, and `run_target` is the select, for each branch that may fire and
-- each state of the channel at that moment.
--
-- Options gives Main its configuration from the flags, the environment and the files that
-- ConfigFile/Load reads. newGoMake (Compile) calls Prepare, which takes makefiles by Sources and
-- edits modules by Workspace; Scan parses the makefile with Syntax and Name and fills Targets;
-- the key of Cache decides whether the program is compiled at all, and the program (Program)
-- picks and runs its target by Exec.
--
-- Fuel: `next_alias` has one round more than there are taken names, and `split_loop` one more than
-- the path has bytes: a round takes a name or a byte at least. `walk_up` has one round more than the
-- path has bytes, since a parent is shorter; `is_ns` one more than the file has types, since a trail
-- names each once; the rounds of `addType` are as many as the types that wait, since each but the
-- last settles one. The map of types that wait is read in the order of its list. An `int` has 64
-- bits; the number of a settings version and a timeout are whole numbers of any size.
--
-- Not modelled: the bytes that are copied and written, HTTP, processes and the Go toolchain,
-- SHA-256 and the store of binaries, help texts and the generated code; the rest of the
-- installer and the built-in targets, which mostly run other programs. Parameters are: the
-- decoder and the encoder of YAML, the parser of Go's flags (xflag), `time.ParseDuration`, the
-- text of a duration, `constraint.Parse` of build constraints, the editors of go.work and go.mod
-- files, `go list`, go/build and the parser of Go, `modfile.ModulePath`, build information,
-- `ast.IsExported`, Go's `path` package, `filepath.Rel`, the verb `%q`, `strings.ToLower` and
-- `Synopsis` of `go/doc`.
pub mod Base
pub mod Env
pub mod Osarch
pub mod Sources
pub mod Workspace
pub mod Cache
pub mod Prepare
pub mod Options
pub mod Target
pub mod Targets
pub mod Alias
pub mod Error
pub mod Exec
pub mod Value
pub mod ConfigFile
pub mod CfgPath
pub mod Name
pub mod Syntax
pub mod Scan
pub mod Compile
pub mod Program
pub mod Version
pub mod Install
pub mod Local
pub mod Imports
pub mod Cli
pub mod Tests
