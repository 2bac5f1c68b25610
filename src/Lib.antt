-- ===== src/Lib.antt =====
-- The workspace of the language-model evaluation service: the browser program under frontend/src.
--
-- The program shows the views of a workspace (dashboard, models, datasets, prompts, runs,
-- leaderboard, analysis). A location decides view and tab (dashboard/routing.ts); the pages load what
-- the service sends (shared/api/client.ts, features/*/types.ts), keep it in their state, and turn it
-- into rows, points, queries and requests. What a page does with its state is modelled by a record for
-- the state, a data type for the events (clicks, answers, failures) and a step by clauses; what it
-- computes from data is modelled by functions by clauses.
--
--   Prelude      shared names; texts as lists of UTF-16 code units, trim, lists, the stable sort
--                (Sorting), insertion-ordered maps of lists (Grouping) and sets (Distinct)
--   Views        i18n/catalog.ts: workspaceViews
--   Routing      dashboard/routing.ts: workspaceRoute, workspacePath; Params holds what the code uses
--                of URLSearchParams, PlainSyntax a concrete syntax that satisfies its two laws
--   Client       shared/api/client.ts: request, subscribeToEvents; shared/api/errors.ts
--   Types        features/*/types.ts: the records of the service
--   Metrics      metrics.ts: METRIC_DEFINITIONS
--   Dashboard    dashboard/analytics.ts: buildDashboardAnalytics, buildRecentRunRows,
--                groupCostsByCurrency
--   Leaderboard  components/pages/LeaderboardPage.tsx: filters, chips and query; Session is the state
--                and its events
--   Catalog      i18n/catalog.ts: the eight catalogues, isLocale, resolveLocale;
--                Interpolate: interpolate and t of i18n/LocaleProvider.tsx
--   Copy         i18n/operationalCopy.ts: translateStaticText, translateStaticTemplate; Load is what it does
--                when it is loaded. Its tables of phrases are parameters
--   StaticCopy   i18n/StaticCopy.tsx: the passes over the document and its observer; Shows is the life of
--                one text, with a view of it to compare
--   Endpoints    features/endpoints/EndpointsRoute.tsx: the form of an endpoint and its request; Session is
--                the state of the route, Inventory the selection of components/pages/EndpointPages.tsx
--   DatasetRun   evaluations/scoringMetrics.ts, components/runs/DatasetRunLauncher.tsx, and
--                datasetRunPayload and the preselected fields of features/runs/RunsRoute.tsx; Launch is
--                the state of the launcher there, with the effect that asks for the fields
--   Datasets     components/pages/CatalogPages.tsx and components/datasets: the form of a dataset version;
--                Page is the state of the page, Values the input of several values
--   RunDetails   features/runs/RunsRoute.tsx: selectRun, openReview, loadMoreAttempts
--   Evidence     features/runs/EvidenceBrowser.tsx: evidenceMedia; Urls is the life of the object URLs
--                of its preview, Tracking and Revoked count them, Filters and Paging are the samples
--                that are shown
--   Scatter      components/analysis/EvidenceScatter.tsx: buildQuery, toggleRun, queryScatter
--   Shell        app/WorkspaceApp.tsx: navigate and syncRoute on the history of the browser
--   Logs         components/runs/RunDetailWorkspace.tsx: groupLogsByTask
--   Navigation   dashboard/navigation.ts: navigationGroups, navigationItem, navigationGroupFor
--   TabKeys      components/workspace/WorkspaceTabs.tsx: handleKeyDown
--   Prompts      components/pages/PromptPackagesPage.tsx: promptPackageForm, promptPackagePayload
--
-- Field and function names are those of the source in snake case. Numbers of JavaScript that are only
-- passed on, and JSON values, are type parameters. Parameters stand for code outside the repository:
-- the order of localeCompare (with the laws of a total preorder), upper case, the reading of numbers, JSON,
-- the query syntax of URLSearchParams (written parameters are read back), how the browser takes an
-- address apart, and the network, whose answers are inputs. Every loop of the source that is modelled
-- follows a list, but for the observer of StaticCopy, which runs on fuel: two calls are enough. A
-- promise is an event of its own, so that answers come in any order.
--
-- Not modelled: the service (backend, in Python), rendering, styles, the geometry of charts on
-- floats, the formats of Intl, the phrases of i18n/operationalCopy.ts, uploads of files,
-- and the pages for reviews and reports.
pub mod Prelude
pub mod Views
pub mod Catalog
pub mod Copy
pub mod StaticCopy
pub mod Endpoints
pub mod Datasets
pub mod Evidence
pub mod Routing
pub mod Client
pub mod Types
pub mod Metrics
pub mod Dashboard
pub mod Leaderboard
pub mod DatasetRun
pub mod RunDetails
pub mod Scatter
pub mod Shell
pub mod Logs
pub mod Navigation
pub mod TabKeys
pub mod Prompts
