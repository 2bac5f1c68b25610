-- ===== src/Catalog/Chinese.antt =====
-- frontend/src/i18n/catalog.ts: the Chinese catalogue.
use llm_evaluation.Prelude.{String}
use llm_evaluation.Catalog.Keys.{TranslationKey}

unfoldable pub zh_cn : TranslationKey → String
zh_cn TranslationKey.common_dismiss = "关闭"
zh_cn TranslationKey.common_loading = "正在加载…"
zh_cn TranslationKey.common_not_configured = "未配置"
zh_cn TranslationKey.common_not_recorded = "未记录"
zh_cn TranslationKey.common_unavailable = "不可用"
zh_cn TranslationKey.common_unknown = "未知"
zh_cn TranslationKey.locale_label = "工作区语言"
zh_cn TranslationKey.locale_unsupported = "不支持的语言区域"
zh_cn TranslationKey.provider_missing = "翻译提供程序不可用。"
zh_cn TranslationKey.run_launcher_context_title = "启动上下文"
zh_cn TranslationKey.run_launcher_context_description = "选择一个可用端点，并在加入队列前检查任一启动方式。"
zh_cn TranslationKey.run_launcher_quick_start_title = "快速开始"
zh_cn TranslationKey.run_launcher_quick_start_description = "无需先准备数据集即可运行小型内置评测。"
zh_cn TranslationKey.run_launcher_dataset_description = "选择已就绪的数据集，并将准备好的字段映射到评测快照。"
zh_cn TranslationKey.run_launcher_quick_start_benchmark = "快速开始基准"
zh_cn TranslationKey.run_launcher_offline_hint = "内置样本小巧、确定且可离线用于文本和模态检查。"
zh_cn TranslationKey.run_launcher_queue_quick_start = "将快速开始加入队列"
zh_cn TranslationKey.run_launcher_preflight_quick_start = "预检快速开始"
zh_cn TranslationKey.run_launcher_preflight_dataset = "预检数据集"
zh_cn TranslationKey.run_launcher_not_checked = "尚未检查"
zh_cn TranslationKey.run_launcher_checking = "正在检查…"
zh_cn TranslationKey.run_launcher_ready = "可以加入队列"
zh_cn TranslationKey.run_launcher_blocked = "已阻止"
zh_cn TranslationKey.run_launcher_dataset_handoff = "已从数据集目录选择。加入队列前请检查检测到的字段映射。"
zh_cn TranslationKey.run_launcher_schema_loading = "正在读取准备好的数据集字段…"
zh_cn TranslationKey.run_launcher_schema_empty = "此数据集没有可选择的字段。"
zh_cn TranslationKey.run_launcher_schema_reference_required = "此数据集仅公开一个字段；需要一个不同的参考字段。"
zh_cn TranslationKey.run_launcher_schema_distinct_fields = "输入字段和参考字段必须不同。"
zh_cn TranslationKey.run_launcher_schema_retry = "重试"
zh_cn TranslationKey.prompt_package_title = "提示词包"
zh_cn TranslationKey.prompt_package_description = "为运行创建版本化评测指令。"
zh_cn TranslationKey.prompt_package_inventory = "提示词包清单"
zh_cn TranslationKey.prompt_package_empty = "尚无提示词包。"
zh_cn TranslationKey.prompt_package_create = "创建提示词包"
zh_cn TranslationKey.prompt_package_name = "名称"
zh_cn TranslationKey.prompt_package_version = "版本"
zh_cn TranslationKey.prompt_package_type = "提示词类型"
zh_cn TranslationKey.prompt_package_system_message = "系统消息"
zh_cn TranslationKey.prompt_package_user_template = "用户模板"
zh_cn TranslationKey.prompt_package_few_shot_examples = "少样本示例（JSON 数组）"
zh_cn TranslationKey.prompt_package_output_format = "输出格式（JSON 对象）"
zh_cn TranslationKey.prompt_package_response_parser = "响应解析器（JSON 对象）"
zh_cn TranslationKey.prompt_package_scoring_rule = "评分规则（JSON 对象）"
zh_cn TranslationKey.prompt_package_change_log = "变更日志"
zh_cn TranslationKey.prompt_package_save = "保存版本化提示词"
zh_cn TranslationKey.prompt_package_saving = "正在保存…"
zh_cn TranslationKey.prompt_package_invalid_json = "可选配置字段必须使用有效 JSON。"
zh_cn TranslationKey.prompt_package_examples_must_array = "少样本示例必须是 JSON 数组。"
zh_cn TranslationKey.prompt_package_config_must_object = "可选配置字段必须是 JSON 对象。"
zh_cn TranslationKey.prompt_package_inventory_tab = "提示词清单"
zh_cn TranslationKey.prompt_package_inventory_description = "选择一个版本以检查并管理其评测指令。"
zh_cn TranslationKey.prompt_package_create_tab = "新建提示词包"
zh_cn TranslationKey.prompt_package_create_description = "创建可在评测中重复使用的版本化提示词包。"
zh_cn TranslationKey.prompt_package_identity = "标识与类型"
zh_cn TranslationKey.prompt_package_instructions = "提示词指令"
zh_cn TranslationKey.prompt_package_advanced = "高级配置"
zh_cn TranslationKey.prompt_package_template_hint = "支持的模板变量："
zh_cn TranslationKey.prompt_package_variables = "变量"
zh_cn TranslationKey.prompt_package_no_system_message = "未设置系统消息。"
zh_cn TranslationKey.prompt_package_not_configured = "未配置"
zh_cn TranslationKey.prompt_package_no_change_log = "未提供变更日志。"
zh_cn TranslationKey.prompt_package_edit = "编辑提示词包"
zh_cn TranslationKey.prompt_package_save_changes = "保存更改"
zh_cn TranslationKey.prompt_package_cancel = "取消"
zh_cn TranslationKey.prompt_package_duplicate = "复制为新版本"
zh_cn TranslationKey.prompt_package_delete = "删除提示词包"
zh_cn TranslationKey.prompt_package_deleting = "正在删除…"
zh_cn TranslationKey.prompt_package_delete_confirmation =
    "删除 {{name}} v{{version}}？被运行或套件使用的提示词包受保护。"
zh_cn TranslationKey.prompt_package_saved_notice = "版本化提示词包已保存。"
zh_cn TranslationKey.prompt_package_updated_notice = "提示词包已更新。"
zh_cn TranslationKey.prompt_package_deleted_notice = "提示词包已删除。"
zh_cn TranslationKey.dataset_run_title = "数据集评测"
zh_cn TranslationKey.dataset_run_dataset = "数据集"
zh_cn TranslationKey.dataset_run_prompt_package = "提示词包（可选）"
zh_cn TranslationKey.dataset_run_reference_field = "参考答案字段"
zh_cn TranslationKey.dataset_run_reference_field_hint = "保存预期答案的记录字段"
zh_cn TranslationKey.dataset_run_sample_limit = "样本数量上限"
zh_cn TranslationKey.dataset_run_endpoint = "端点"
zh_cn TranslationKey.dataset_run_non_ready_hint = "仅列出已就绪的数据集。请先下载并验证其他版本。"
zh_cn TranslationKey.dataset_run_queue = "将数据集评测加入队列"
zh_cn TranslationKey.dataset_run_queued = "数据集评测已加入队列。"
zh_cn TranslationKey.dataset_run_input_field = "输入字段"
zh_cn TranslationKey.dataset_run_metric = "评测指标"
zh_cn TranslationKey.dataset_run_metric_default = "默认"
zh_cn TranslationKey.dataset_run_metric_exact_match = "精确匹配"
zh_cn TranslationKey.dataset_run_metric_normalized_exact_match = "归一化精确匹配"
zh_cn TranslationKey.dataset_run_metric_token_f1 = "词元 F1"
zh_cn TranslationKey.dataset_run_metric_bleu = "BLEU"
zh_cn TranslationKey.dataset_run_metric_rouge_l = "ROUGE-L"
zh_cn TranslationKey.dataset_run_metric_llm_judge = "LLM 评审"
zh_cn TranslationKey.dataset_run_judge_endpoint = "评审端点"
zh_cn TranslationKey.dataset_run_judge_endpoint_hint = "选择已通过连接测试且不同于被评测模型的端点。"
zh_cn TranslationKey.dataset_run_judge_system_message = "评审系统消息"
zh_cn TranslationKey.dataset_run_judge_system_message_hint = "定义评审对每个答案必须应用的评测标准。"
zh_cn TranslationKey.dataset_run_judge_configuration_required = "请选择独立的评审端点并提供系统消息。"
zh_cn TranslationKey.dataset_run_metric_default_hint = "默认选项优先使用提示词包的评分规则，否则回退到精确匹配。"
zh_cn TranslationKey.dataset_run_metric_override_hint = "在此选择指标将覆盖提示词包的评分规则。"
zh_cn TranslationKey.dataset_run_effective_metric = "评测指标"
zh_cn TranslationKey.dataset_run_start_evaluation = "开始评测"
zh_cn TranslationKey.dataset_register_title = "注册数据集版本"
zh_cn TranslationKey.dataset_register_input_field = "输入字段"
zh_cn TranslationKey.dataset_register_reference_field = "参考答案（输出）字段"
zh_cn TranslationKey.dataset_register_input_field_hint = "可选：用作提示词输入的记录字段"
zh_cn TranslationKey.dataset_register_reference_field_hint = "可选：保存预期答案的记录字段"
zh_cn TranslationKey.dataset_register_metadata = "评测配置"
zh_cn TranslationKey.dataset_register_metadata_hint = "为此数据集版本添加可复用的任务和语言元数据。"
zh_cn TranslationKey.dataset_register_capabilities = "能力"
zh_cn TranslationKey.dataset_register_languages = "语言"
zh_cn TranslationKey.dataset_register_evaluation_type = "评测类型"
zh_cn TranslationKey.dataset_register_remove_capability = "移除能力"
zh_cn TranslationKey.dataset_register_remove_language = "移除语言"
zh_cn TranslationKey.dataset_register_multi_value_hint = "按 Enter 或逗号添加值；按 Backspace 删除最后一个值。"
zh_cn TranslationKey.dataset_register_type_classification = "分类"
zh_cn TranslationKey.dataset_register_type_generation = "生成"
zh_cn TranslationKey.dataset_register_type_code = "代码"
zh_cn TranslationKey.dataset_register_type_language_modeling = "语言建模"
zh_cn TranslationKey.dataset_register_type_custom = "自定义"
zh_cn TranslationKey.dataset_register_schema_loading = "正在读取可选的已准备字段…"
zh_cn TranslationKey.dataset_register_manual_field_hint = "已准备字段不可用；请手动输入字段名称。"
zh_cn TranslationKey.dataset_register_schema_changed = "保存的字段不在已准备架构中。请在保存前选择可用字段。"
