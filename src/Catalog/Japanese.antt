-- ===== src/Catalog/Japanese.antt =====
-- frontend/src/i18n/catalog.ts: the Japanese catalogue.
use llm_evaluation.Prelude.{String}
use llm_evaluation.Catalog.Keys.{TranslationKey}

unfoldable pub ja : TranslationKey → String
ja TranslationKey.common_dismiss = "閉じる"
ja TranslationKey.common_loading = "読み込み中…"
ja TranslationKey.common_not_configured = "未設定"
ja TranslationKey.common_not_recorded = "記録なし"
ja TranslationKey.common_unavailable = "利用不可"
ja TranslationKey.common_unknown = "不明"
ja TranslationKey.locale_label = "ワークスペースの言語"
ja TranslationKey.locale_unsupported = "サポートされていないロケール"
ja TranslationKey.provider_missing = "翻訳プロバイダーを利用できません。"
ja TranslationKey.run_launcher_context_title = "起動コンテキスト"
ja TranslationKey.run_launcher_context_description = "利用可能なエンドポイントを選択し、キュー投入前に起動方法を確認します。"
ja TranslationKey.run_launcher_quick_start_title = "クイックスタート"
ja TranslationKey.run_launcher_quick_start_description = "データセットを準備せずに小さな組み込み評価を実行します。"
ja TranslationKey.run_launcher_dataset_description = "準備済みデータセットを選択し、そのフィールドを評価スナップショットに割り当てます。"
ja TranslationKey.run_launcher_quick_start_benchmark = "クイックスタート ベンチマーク"
ja TranslationKey.run_launcher_offline_hint = "組み込みサンプルは小さく決定的で、テキストとモダリティの確認にオフラインで使用できます。"
ja TranslationKey.run_launcher_queue_quick_start = "クイックスタートをキューに入れる"
ja TranslationKey.run_launcher_preflight_quick_start = "クイックスタートを事前確認"
ja TranslationKey.run_launcher_preflight_dataset = "データセットを事前確認"
ja TranslationKey.run_launcher_not_checked = "未確認"
ja TranslationKey.run_launcher_checking = "確認中…"
ja TranslationKey.run_launcher_ready = "キュー投入可能"
ja TranslationKey.run_launcher_blocked = "ブロック済み"
ja TranslationKey.run_launcher_dataset_handoff = "データセット カタログから選択されました。キュー投入前にフィールド割り当てを確認してください。"
ja TranslationKey.run_launcher_schema_loading = "準備済みデータセットのフィールドを読み込み中…"
ja TranslationKey.run_launcher_schema_empty = "このデータセットには選択可能なフィールドがありません。"
ja TranslationKey.run_launcher_schema_reference_required =
    "このデータセットにはフィールドが 1 つしかないため、別の参照フィールドが必要です。"
ja TranslationKey.run_launcher_schema_distinct_fields = "入力フィールドと参照フィールドは異なる必要があります。"
ja TranslationKey.run_launcher_schema_retry = "再試行"
ja TranslationKey.prompt_package_title = "プロンプトパッケージ"
ja TranslationKey.prompt_package_description = "実行用のバージョン管理された評価指示を作成します。"
ja TranslationKey.prompt_package_inventory = "プロンプトパッケージ一覧"
ja TranslationKey.prompt_package_empty = "プロンプトパッケージはまだありません。"
ja TranslationKey.prompt_package_create = "プロンプトパッケージを作成"
ja TranslationKey.prompt_package_name = "名前"
ja TranslationKey.prompt_package_version = "バージョン"
ja TranslationKey.prompt_package_type = "プロンプト種別"
ja TranslationKey.prompt_package_system_message = "システムメッセージ"
ja TranslationKey.prompt_package_user_template = "ユーザーテンプレート"
ja TranslationKey.prompt_package_few_shot_examples = "Few-shot 例（JSON 配列）"
ja TranslationKey.prompt_package_output_format = "出力形式（JSON オブジェクト）"
ja TranslationKey.prompt_package_response_parser = "応答パーサー（JSON オブジェクト）"
ja TranslationKey.prompt_package_scoring_rule = "採点ルール（JSON オブジェクト）"
ja TranslationKey.prompt_package_change_log = "変更ログ"
ja TranslationKey.prompt_package_save = "バージョン付きプロンプトを保存"
ja TranslationKey.prompt_package_saving = "保存中…"
ja TranslationKey.prompt_package_invalid_json = "任意の設定フィールドには有効な JSON を使用してください。"
ja TranslationKey.prompt_package_examples_must_array = "Few-shot 例は JSON 配列である必要があります。"
ja TranslationKey.prompt_package_config_must_object = "任意の設定フィールドは JSON オブジェクトである必要があります。"
ja TranslationKey.prompt_package_inventory_tab = "プロンプト一覧"
ja TranslationKey.prompt_package_inventory_description = "バージョンを選択して、評価指示を確認・管理します。"
ja TranslationKey.prompt_package_create_tab = "新しいプロンプトパッケージ"
ja TranslationKey.prompt_package_create_description = "評価で再利用できるバージョン付きプロンプトパッケージを作成します。"
ja TranslationKey.prompt_package_identity = "識別情報とタイプ"
ja TranslationKey.prompt_package_instructions = "プロンプト指示"
ja TranslationKey.prompt_package_advanced = "詳細設定"
ja TranslationKey.prompt_package_template_hint = "サポートされるテンプレート変数："
ja TranslationKey.prompt_package_variables = "変数"
ja TranslationKey.prompt_package_no_system_message = "システムメッセージは設定されていません。"
ja TranslationKey.prompt_package_not_configured = "未設定"
ja TranslationKey.prompt_package_no_change_log = "変更履歴はありません。"
ja TranslationKey.prompt_package_edit = "プロンプトパッケージを編集"
ja TranslationKey.prompt_package_save_changes = "変更を保存"
ja TranslationKey.prompt_package_cancel = "キャンセル"
ja TranslationKey.prompt_package_duplicate = "新しいバージョンとして複製"
ja TranslationKey.prompt_package_delete = "パッケージを削除"
ja TranslationKey.prompt_package_deleting = "削除中…"
ja TranslationKey.prompt_package_delete_confirmation =
    "{{name}} v{{version}} を削除しますか？実行またはスイートで使用中のパッケージは保護されます。"
ja TranslationKey.prompt_package_saved_notice = "バージョン付きプロンプトパッケージを保存しました。"
ja TranslationKey.prompt_package_updated_notice = "プロンプトパッケージを更新しました。"
ja TranslationKey.prompt_package_deleted_notice = "プロンプトパッケージを削除しました。"
ja TranslationKey.dataset_run_title = "データセット評価"
ja TranslationKey.dataset_run_dataset = "データセット"
ja TranslationKey.dataset_run_prompt_package = "プロンプト パッケージ（省略可能）"
ja TranslationKey.dataset_run_reference_field = "参照フィールド"
ja TranslationKey.dataset_run_reference_field_hint = "期待される回答を保持するレコード フィールド"
ja TranslationKey.dataset_run_sample_limit = "サンプル上限"
ja TranslationKey.dataset_run_endpoint = "エンドポイント"
ja TranslationKey.dataset_run_non_ready_hint = "準備ができたデータセットのみが表示されます。他のバージョンを先にダウンロードして検証してください。"
ja TranslationKey.dataset_run_queue = "データセット評価をキューに入れる"
ja TranslationKey.dataset_run_queued = "データセット評価がキューに入りました。"
ja TranslationKey.dataset_run_input_field = "入力フィールド"
ja TranslationKey.dataset_run_metric = "評価指標"
ja TranslationKey.dataset_run_metric_default = "デフォルト"
ja TranslationKey.dataset_run_metric_exact_match = "完全一致"
ja TranslationKey.dataset_run_metric_normalized_exact_match = "正規化完全一致"
ja TranslationKey.dataset_run_metric_token_f1 = "トークン F1"
ja TranslationKey.dataset_run_metric_bleu = "BLEU"
ja TranslationKey.dataset_run_metric_rouge_l = "ROUGE-L"
ja TranslationKey.dataset_run_metric_llm_judge = "LLM 審判"
ja TranslationKey.dataset_run_judge_endpoint = "審判エンドポイント"
ja TranslationKey.dataset_run_judge_endpoint_hint = "評価対象モデルとは異なる、接続テスト済みのエンドポイントを選択します。"
ja TranslationKey.dataset_run_judge_system_message = "審判システムメッセージ"
ja TranslationKey.dataset_run_judge_system_message_hint = "審判が各回答に適用する評価基準を定義します。"
ja TranslationKey.dataset_run_judge_configuration_required = "別の審判エンドポイントを選択し、システムメッセージを入力してください。"
ja TranslationKey.dataset_run_metric_default_hint = "デフォルトではプロンプト パッケージの採点規則を使用し、なければ完全一致に戻ります。"
ja TranslationKey.dataset_run_metric_override_hint = "ここで指標を選択すると、プロンプト パッケージの採点規則が上書きされます。"
ja TranslationKey.dataset_run_effective_metric = "評価指標"
ja TranslationKey.dataset_run_start_evaluation = "評価を開始"
ja TranslationKey.dataset_register_title = "データセット バージョンの登録"
ja TranslationKey.dataset_register_input_field = "入力フィールド"
ja TranslationKey.dataset_register_reference_field = "参照フィールド（出力）"
ja TranslationKey.dataset_register_input_field_hint = "プロンプト入力として使用するレコード フィールド（省略可能）"
ja TranslationKey.dataset_register_reference_field_hint = "期待される回答を保持するレコード フィールド（省略可能）"
ja TranslationKey.dataset_register_metadata = "評価プロファイル"
ja TranslationKey.dataset_register_metadata_hint = "このバージョンに再利用可能なタスクと言語のメタデータを追加します。"
ja TranslationKey.dataset_register_capabilities = "機能"
ja TranslationKey.dataset_register_languages = "言語"
ja TranslationKey.dataset_register_evaluation_type = "評価タイプ"
ja TranslationKey.dataset_register_remove_capability = "機能を削除"
ja TranslationKey.dataset_register_remove_language = "言語を削除"
ja TranslationKey.dataset_register_multi_value_hint = "Enter またはカンマで追加し、Backspace で最後の値を削除します。"
ja TranslationKey.dataset_register_type_classification = "分類"
ja TranslationKey.dataset_register_type_generation = "生成"
ja TranslationKey.dataset_register_type_code = "コード"
ja TranslationKey.dataset_register_type_language_modeling = "言語モデリング"
ja TranslationKey.dataset_register_type_custom = "カスタム"
ja TranslationKey.dataset_register_schema_loading = "選択可能な準備済みフィールドを読み込み中…"
ja TranslationKey.dataset_register_manual_field_hint = "準備済みフィールドを利用できません。フィールド名を手動で入力してください。"
ja TranslationKey.dataset_register_schema_changed =
    "保存済みフィールドが準備済みスキーマにありません。保存前に利用可能なフィールドを選択してください。"
